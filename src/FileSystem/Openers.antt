-- ===== src/FileSystem/Openers.antt =====
-- The table of open inodes: each sector has at most one inode in memory, however often it is open.
use project_os.Base.{
  ℕ, ◌≤◌, ◌<◌, ◌≡◌, ◌≢◌, refl, ◌∙◌, ap, inl, inr, Option, none, some, List, [], ◌∷◌, arith, ◌==◌,
  Bool-cases, Option-cases, count, remove_elem,
}
use project_os.FileSystem.Inode.{Inode}
use project_os.FileSystem.Files.{FileSys}
use project_os.FileSystem.Open.{find_open}

-- Open inodes have different sectors, are in use, and are denied to writers at most once by each
-- opener.
pub record Table (fs : FileSys) : Type 0 where
  pub once : (p : ℕ) → count p fs.open_inodes ≤ 1
  pub apart :
      (p q : ℕ)
      → 0 < count p fs.open_inodes
      → 0 < count q fs.open_inodes
      → (fs.inodes p).sector ≡ (fs.inodes q).sector
      → p ≡ q
  pub live : (p : ℕ) → 0 < count p fs.open_inodes → 0 < (fs.inodes p).open_cnt
  pub denied :
      (p : ℕ) → 0 < count p fs.open_inodes → (fs.inodes p).deny_write_cnt ≤ (fs.inodes p).open_cnt

-- The openers of what a search has found.
abbrev pub openers_of : (ℕ → Inode) → Option ℕ → ℕ
openers_of inodes none = 0
openers_of inodes (some p) = (inodes p).open_cnt

-- How often the inode in a sector is open.
unfoldable pub openers : FileSys → (sector : ℕ) → ℕ
openers fs sector = openers_of fs.inodes (find_open fs.inodes sector fs.open_inodes)

pub find_open-Found :
    (f : ℕ → Inode) (s p : ℕ) (xs : List ℕ)
    → find_open f s xs ≡ some p
    → (0 < count p xs) × ((f p).sector ≡ s)
unfolding find_open
find_open-Found f s p [] e = cc
find_open-Found f s p (x ∷ xs) e = elim (Bool-cases ((f x).sector == s)) [
  | inl here ↦ let same : x ≡ p = ground (arith, e) in (ground arith, ground arith)
  | inr miss ↦ let (some_there, at) = find_open-Found f s p xs (ground arith) in (ground arith, at)
]

pub find_open-Missing :
    (f : ℕ → Inode) (s p : ℕ) (xs : List ℕ)
    → find_open f s xs ≡ none
    → 0 < count p xs
    → (f p).sector ≢ s
unfolding find_open
find_open-Missing f s p [] e h = absurd (omega arith)
find_open-Missing f s p (x ∷ xs) e h = ground (arith, find_open-Missing f s p xs)

-- The search reads the sectors of the listed inodes only.
pub find_open-same :
    (f g : ℕ → Inode) (s : ℕ) (xs : List ℕ)
    → ((p : ℕ) → 0 < count p xs → (g p).sector ≡ (f p).sector)
    → find_open g s xs ≡ find_open f s xs
unfolding find_open
find_open-same f g s [] h = refl
find_open-same f g s (x ∷ xs) h =
    ground (arith, h x, find_open-same f g s xs (λ p k. h p (ground arith)))

pub find_open-remove_elem :
    (f : ℕ → Inode) (s p : ℕ) (xs : List ℕ)
    → (f p).sector ≢ s
    → find_open f s (remove_elem p xs) ≡ find_open f s xs
unfolding find_open remove_elem
find_open-remove_elem f s p [] h = refl
find_open-remove_elem f s p (x ∷ xs) h = ground (arith, find_open-remove_elem f s p xs h)

pub find_open-absent :
    (f : ℕ → Inode) (s : ℕ) (xs : List ℕ)
    → ((p : ℕ) → 0 < count p xs → (f p).sector ≢ s)
    → find_open f s xs ≡ none
unfolding find_open
find_open-absent f s [] h = refl
find_open-absent f s (x ∷ xs) h =
    ground (arith, h x, find_open-absent f s xs (λ p k. h p (ground arith)))

-- What the search of a table comes upon.
pub find_open-here :
    (fs : FileSys) (p : ℕ)
    → Table fs
    → 0 < count p fs.open_inodes
    → find_open fs.inodes (fs.inodes p).sector fs.open_inodes ≡ some p
find_open-here fs p t h =
    elim (Option-cases (find_open fs.inodes (fs.inodes p).sector fs.open_inodes)) [
      | inl e ↦ absurd (find_open-Missing fs.inodes _ p _ e h refl)
      | inr (q, e) ↦
          let (listed, at) = find_open-Found fs.inodes _ q _ e in
          e ∙ ap some (t.apart q p listed h at)
    ]
