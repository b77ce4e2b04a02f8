-- ===== src/Kernel/System/Steps.antt =====
-- A step of the running thread that leaves the calls of the other threads alone.
use mathlib.Core.Path.{subst}
use project_os.Base.{
  ℕ, ◌≡◌, refl, sym, ◌∙◌, ap, inl, inr, true, false, List, [], ◌∷◌, arith, ◌==◌, if◌then◌else◌,
  Bool-cases,
}
use project_os.Kernel.{Kernel, Frame}
use project_os.Kernel.Invariant.{Place, Inv}
use project_os.Kernel.Order.{InOrder}
use project_os.Kernel.System.{
  sem_of, is_down, IsRested, IsIdle, Shape, holders, values, claimers, Sys,
}
use project_os.Kernel.System.Owners.{Excl}
use project_os.Kernel.System.Down.{Shape-same}

pub IsRested-Shape : (sem : ℕ → ℕ) (fs : List Frame) → IsRested fs → Shape sem fs
IsRested-Shape sem [] r = tt
IsRested-Shape sem (Frame.set_level old ∷ fs) r = r
IsRested-Shape sem (Frame.down s old ∷ fs) r = elim r [ ]
IsRested-Shape sem (Frame.own l ∷ fs) r = r

pub Shape-IsRested :
    (sem : ℕ → ℕ) (fs : List Frame) → Shape sem fs → is_down fs ≡ false → IsRested fs
Shape-IsRested sem [] r d = tt
Shape-IsRested sem (Frame.set_level old ∷ fs) r d = r
Shape-IsRested sem (Frame.down s old ∷ fs) r d = cc
Shape-IsRested sem (Frame.own l ∷ fs) r d = r

pub IsRested-is_down : (fs : List Frame) → IsRested fs → is_down fs ≡ false
IsRested-is_down [] r = refl
IsRested-is_down (Frame.set_level old ∷ fs) r = refl
IsRested-is_down (Frame.down s old ∷ fs) r = elim r [ ]
IsRested-is_down (Frame.own l ∷ fs) r = refl

-- A state in which only the running thread's calls have changed, to `fs`.
pub record Moved (k k' : Kernel) (fs : List Frame) : Type 0 where
  pub place : ℕ → Place
  pub inv : Inv k' place
  pub order : InOrder k' k'.blocked_list
  pub idle : k'.idle_thread ≡ k.idle_thread
  pub outside : k'.intr_context ≡ false
  pub sems : (l : ℕ) → sem_of k' l ≡ sem_of k l
  pub frames : (t : ℕ) → k'.frames t ≡ (if t == k.current then fs else k.frames t)
  pub shape : Shape (sem_of k) fs
  pub idles : IsIdle (k.frames k.current) → IsIdle fs
  pub level : is_down (k'.frames k'.current) ≡ true → k'.intr_on ≡ false
  pub excl : Excl (holders k') (values k') (claimers k')

pub Moved-Sys : (k k' : Kernel) (fs : List Frame) → Sys k → Moved k k' fs → Sys k'
Moved-Sys k k' fs s m = record {
  place = m.place;
  inv = m.inv;
  order = m.order;
  idle = s.idle;
  is_idle = m.idle ∙ s.is_idle;
  outside = m.outside;
  apart = λ l n e. s.apart l n (sym (m.sems l) ∙ e ∙ m.sems n);
  shapes = λ t. subst (Shape (sem_of k')) (sym (m.frames t)) (
      Shape-same (sem_of k) (sem_of k') (if t == k.current then fs else k.frames t) m.sems
        (shape_at t));
  idles = subst IsIdle (sym (m.frames s.idle)) idle_at;
  level = m.level;
  excl = m.excl;
}
  where
    shape_at : (t : ℕ) → Shape (sem_of k) (if t == k.current then fs else k.frames t)
    shape_at t = elim (Bool-cases (t == k.current)) [
      | inl at ↦ rw at m.shape
      | inr away ↦ rw away (s.shapes t)
    ]

    idle_at : IsIdle (if s.idle == k.current then fs else k.frames s.idle)
    idle_at = elim (Bool-cases (s.idle == k.current)) [
      | inl at ↦
          let here : s.idle ≡ k.current = ground arith in
          rw at (m.idles (subst (λ t. IsIdle (k.frames t)) here s.idles))
      | inr away ↦ rw away s.idles
    ]

pub same_frames :
    (k : Kernel) (t : ℕ) → k.frames t ≡ (if t == k.current then k.frames k.current else k.frames t)
same_frames k t = elim (Bool-cases (t == k.current)) [
  | inl at ↦ let here : t ≡ k.current = ground arith in rw at (ap k.frames here)
  | inr away ↦ rw away refl
]

module _ (k : Kernel) (s : Sys k) where
  pub level_kept :
      (k' : Kernel)
      → k'.frames ≡ k.frames
      → k'.current ≡ k.current
      → k'.intr_on ≡ k.intr_on
      → is_down (k'.frames k'.current) ≡ true
      → k'.intr_on ≡ false
  level_kept k' ef ec el d =
      el
      ∙ s.level (sym (ap (λ g. is_down (g k'.current)) ef ∙ ap (λ t. is_down (k.frames t)) ec) ∙ d)

  pub frames_kept :
      (k' : Kernel)
      → k'.frames ≡ k.frames
      → (t : ℕ) → k'.frames t ≡ (if t == k.current then k.frames k.current else k.frames t)
  frames_kept k' e t = ap (λ g. g t) e ∙ same_frames k t
