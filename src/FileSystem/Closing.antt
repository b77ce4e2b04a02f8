-- ===== src/FileSystem/Closing.antt =====
-- Closing an inode.
use project_os.Base.{
  ℕ, ◌-◌, ◌<◌, ◌≡◌, ◌≢◌, ◌∙◌, inl, inr, ◌&&◌, arith, ◌==◌, if◌then◌else◌, Bool-cases, Option-cases,
  count, remove_elem, count-remove_elem,
}
use project_os.FileSystem.Files.{FileSys}
use project_os.FileSystem.Open.{find_open, one_less}
use project_os.FileSystem.Openers.{
  Table, openers, openers_of, find_open-Found, find_open-same, find_open-remove_elem,
  find_open-absent, find_open-here,
}

-- After an opener of the inode at `p` has closed it.
pub record Closed (fs : FileSys) (p : ℕ) (fs' : FileSys) : Type 0 where
  pub table : Table fs'
  pub openers_after :
      (s : ℕ) → openers fs' s ≡ openers fs s - (if s == (fs.inodes p).sector then 1 else 0)
  pub listed :
      (q : ℕ)
      → count q fs'.open_inodes
        ≡ (if q == p && (fs.inodes p).open_cnt == 1 then 0 else count q fs.open_inodes)
  pub others : (q : ℕ) → q ≢ p → fs'.inodes q ≡ fs.inodes q

module _ (fs : FileSys) (p : ℕ) (t : Table fs) (h : 0 < count p fs.open_inodes)
    (spare : (fs.inodes p).deny_write_cnt < (fs.inodes p).open_cnt) where
  openers_last :
      (s : ℕ)
      → (fs.inodes p).open_cnt ≡ 1
      → openers_of
          (one_less fs p).inodes
          (find_open (one_less fs p).inodes s (remove_elem p fs.open_inodes))
        ≡ openers fs s - (if s == (fs.inodes p).sector then 1 else 0)
  unfolding openers
  openers_last s last =
      let moved =
        find_open-same fs.inodes (one_less fs p).inodes s (remove_elem p fs.open_inodes)
          (λ q k. ground arith) in
      elim (Bool-cases (s == (fs.inodes p).sector)) [
        | inl here ↦
            let at : s ≡ (fs.inodes p).sector = ground arith in
            let gone = find_open-absent fs.inodes s (remove_elem p fs.open_inodes) (λ q k e.
              let left = count-remove_elem q p fs.open_inodes in
              let same : q ≡ p = t.apart q p (ground (arith, left, k)) h (e ∙ at) in
              ground (arith, left, k, same, t.once p)) in
            let found = find_open-here fs p t h in
            rw (moved, gone) (ground (arith, found, at, last))
        | inr other ↦
            let kept = find_open-remove_elem fs.inodes s p fs.open_inodes (ground arith) in
            elim (Option-cases (find_open fs.inodes s fs.open_inodes)) [
              | inl n ↦ rw (moved, kept, n) (ground (arith, n))
              | inr (q, f) ↦
                  let (there, at) = find_open-Found fs.inodes s q fs.open_inodes f in
                  rw (moved, kept, f) (ground (arith, at, f))
            ]
      ]

  openers_more :
      (s : ℕ)
      → openers_of (one_less fs p).inodes (find_open (one_less fs p).inodes s fs.open_inodes)
        ≡ openers fs s - (if s == (fs.inodes p).sector then 1 else 0)
  unfolding openers
  openers_more s =
      let moved =
        find_open-same fs.inodes (one_less fs p).inodes s fs.open_inodes (λ q k. ground arith) in
      let here = find_open-here fs p t h in
      elim (Option-cases (find_open fs.inodes s fs.open_inodes)) [
        | inl n ↦ rw (moved, n) (ground (arith, here, n))
        | inr (q, f) ↦
            let (there, at) = find_open-Found fs.inodes s q fs.open_inodes f in
            rw (moved, f) (ground (arith, at, here, f))
      ]

  pub last-Closed :
      (fs.inodes p).open_cnt ≡ 1
      → Closed fs p (record (one_less fs p) { open_inodes = remove_elem p fs.open_inodes })
  unfolding openers
  last-Closed last =
      let left = λ (q : ℕ). count-remove_elem q p fs.open_inodes in
      record {
        table = record {
          once = λ a. ground (arith, left a, t.once a);
          apart = λ a b ha hb. ground (arith, left a, left b, t.once p, t.apart a b, ha, hb);
          live = λ a ha. ground (arith, left a, t.once p, t.live a, ha);
          denied = λ a ha. ground (arith, left a, t.once p, t.denied a, ha);
        };
        openers_after = λ s. openers_last s last;
        listed = λ q. ground (arith, left q, last, t.once p, h);
        others = λ q ne. ground arith;
      }

  pub more-Closed : (fs.inodes p).open_cnt ≢ 1 → Closed fs p (one_less fs p)
  unfolding openers
  more-Closed more = record {
    table = record {
      once = t.once;
      apart = λ a b ha hb. ground (arith, t.apart a b);
      live = λ a ha. ground (arith, t.live a);
      denied = λ a ha. ground (arith, t.denied a);
    };
    openers_after = openers_more;
    listed = λ q. ground arith;
    others = λ q ne. ground arith;
  }
