-- ===== src/Intq/Fifo.antt =====
-- The buffer as a queue of at most 63 bytes.
use project_os.Base.{
  ℕ, zero, suc, ◌+◌, ◌-◌, ◌%◌, ◌≤◌, ◌<◌, ◌≡◌, ◌≢◌, refl, sym, ◌∙◌, ap, true, false, none, some,
  List, [], ◌∷◌, ◌++◌, arith, length, update, assert-not, some->>=, if-true, if-false, ◌>>=◌,
}
use project_os.Kernel.{Kernel}
use project_os.Kernel.Sync.{lock_acquire}
use project_os.Intq.{
  Intq, done, waits, begin_wait, intq_bufsize, next_pos, intq_empty, intq_full, wake_waiter,
  intq_putc, intq_getc,
}

-- `n` bytes from `tail` on, around the end of the buffer.
pub bytes_from : (n : ℕ) → (ℕ → ℕ) → (tail : ℕ) → List ℕ
bytes_from zero buf tail = []
bytes_from (suc n) buf tail = buf tail ∷ bytes_from n buf (next_pos tail)

abbrev pub amount : Intq → ℕ
amount q = (q.head + intq_bufsize - q.tail) % intq_bufsize

-- The bytes of the queue, the oldest first.
abbrev pub queue : Intq → List ℕ
queue q = bytes_from (amount q) q.buf q.tail

-- The positions are in the buffer.
pub record InBuffer (q : Intq) : Type 0 where
  pub head : q.head < intq_bufsize
  pub tail : q.tail < intq_bufsize

-- A byte that is written behind the others.
bytes_from-snoc :
    (n : ℕ) (buf : ℕ → ℕ) (tail head byte : ℕ)
    → n < intq_bufsize
    → tail < intq_bufsize
    → head ≡ (tail + n) % intq_bufsize
    → bytes_from (suc n) (update buf head byte) tail ≡ bytes_from n buf tail ++ (byte ∷ [])
unfolding bytes_from
bytes_from-snoc zero buf tail head byte h t e =
    let at : tail ≡ head = omega arith in ground (arith, at)
bytes_from-snoc (suc n) buf tail head byte h t e =
    let rest =
      bytes_from-snoc n buf (next_pos tail) head byte (omega arith) (omega arith) (omega arith) in
    let other : tail ≢ head = λ same. (omega arith) in
    let first : update buf head byte tail ≡ buf tail = ground (arith, other) in
    ap (λ b. b ∷ bytes_from (suc n) (update buf head byte) (next_pos tail)) first
    ∙ ap (λ l. buf tail ∷ l) rest

bytes_from-length : (n : ℕ) (buf : ℕ → ℕ) (tail : ℕ) → length (bytes_from n buf tail) ≡ n
unfolding bytes_from
bytes_from-length zero buf tail = refl
bytes_from-length (suc n) buf tail = omega (arith, bytes_from-length n buf (next_pos tail))

module _ (q : Intq) (k : Kernel) (v : InBuffer q) (off : k.intr_on ≡ false) where
  -- With interrupts off and a waiting thread, if any, that can be woken, `intq_putc` adds a byte at
  -- the end of the queue if it holds less than 63 bytes, and the thread that waits for a byte is
  -- woken. There are never more than 63; then an interrupt handler panics, and a thread asks for the
  -- lock of the queue, to wait.
  pub intq_putc-queue :
      (byte : ℕ) (k' : Kernel)
      → wake_waiter k q.not_empty ≡ some k'
      → (length (queue q) < 63
          → (q' : Intq) × (intq_putc q k byte ≡ some (done q' k'))
            × (queue q' ≡ queue q ++ (byte ∷ []))
            × (q'.not_empty ≡ none)
            × InBuffer q')
        × (length (queue q) ≡ 63 → k.intr_context ≡ true → intq_putc q k byte ≡ none)
        × (length (queue q) ≡ 63
            → k.intr_context ≡ false
            → intq_putc q k byte ≡ (lock_acquire k q.lock >>= λ k1. some (waits k1)))
        × (length (queue q) ≤ 63)
  unfolding intq_putc begin_wait
  intq_putc-queue byte k' woken =
      let size = bytes_from-length (amount q) q.buf q.tail in
      let q1 : Intq = record q { buf = update q.buf q.head byte; head = next_pos q.head } in
      let full : length (queue q) ≡ 63 → intq_full q ≡ true =
        λ e. ground (arith, size, v.head, v.tail) in
      (
        (λ room.
            let open_ : intq_full q ≡ false = ground (arith, size, v.head, v.tail) in
            let filled : intq_empty q1 ≡ false = ground (arith, size, v.head, v.tail) in
            let grown : amount q1 ≡ suc (amount q) = omega (arith, size, v.head, v.tail) in
            (
              record q1 { not_empty = none },
              assert-not _ _ off
                  ∙ if-false (intq_full q) _ _ open_
                  ∙ some->>= _ _ _ (
                      assert-not _ _ off
                      ∙ assert-not (intq_empty q1) _ filled
                      ∙ some->>= _ _ _ woken),
              ap (λ n. bytes_from n q1.buf q.tail) grown
                  ∙ bytes_from-snoc (amount q) q.buf q.tail q.head byte (omega arith) v.tail
                      (omega (arith, v.head, v.tail)),
              refl,
              record { head = omega arith; tail = v.tail },
            )),
        (λ e inside. assert-not _ _ off ∙ if-true (intq_full q) _ _ (full e) ∙ rw inside refl),
        (λ e outside.
            assert-not _ _ off
            ∙ if-true (intq_full q) _ _ (full e)
            ∙ assert-not k.intr_context _ outside),
        omega (arith, size),
      )

  -- With interrupts off and a waiting thread, if any, that can be woken, `intq_getc` takes the
  -- oldest byte of a queue that holds one, and the thread that waits for room is woken. If there
  -- is none, an interrupt handler panics, and a thread asks for the lock of the queue, to wait.
  pub intq_getc-queue :
      (k' : Kernel)
      → wake_waiter k q.not_full ≡ some k'
      → ((byte : ℕ) (rest : List ℕ)
          → queue q ≡ byte ∷ rest
          → (q' : Intq) × (intq_getc q k ≡ some (done (byte, q') k'))
            × (queue q' ≡ rest)
            × (q'.not_full ≡ none)
            × InBuffer q')
        × (queue q ≡ [] → k.intr_context ≡ true → intq_getc q k ≡ none)
        × (queue q ≡ []
            → k.intr_context ≡ false
            → intq_getc q k ≡ (lock_acquire k q.lock >>= λ k1. some (waits k1)))
  unfolding intq_getc begin_wait bytes_from
  intq_getc-queue k' woken =
      let size = bytes_from-length (amount q) q.buf q.tail in
      let q1 : Intq = record q { tail = next_pos q.tail } in
      let empty : queue q ≡ [] → intq_empty q ≡ true =
        λ e. ground (arith, size, v.head, v.tail, ap length e) in
      (
        (λ byte rest e.
            let longer = ap length e in
            let held : intq_empty q ≡ false = ground (arith, size, v.head, v.tail, longer) in
            let open_ : intq_full q1 ≡ false = ground (arith, size, v.head, v.tail, longer) in
            let less : amount q ≡ suc (amount q1) = omega (arith, size, v.head, v.tail, longer) in
            let split : q.buf q.tail ∷ bytes_from (amount q1) q.buf (next_pos q.tail)
                ≡ byte ∷ rest =
              sym (ap (λ n. bytes_from n q.buf q.tail) less) ∙ e in
            let first : q.buf q.tail ≡ byte = cc in
            let others : bytes_from (amount q1) q.buf (next_pos q.tail) ≡ rest = cc in
            (
              record q1 { not_full = none },
              assert-not _ _ off
                  ∙ if-false (intq_empty q) _ _ held
                  ∙ some->>= _ _ _ (
                      assert-not _ _ off ∙ assert-not (intq_full q1) _ open_ ∙ some->>= _ _ _ woken)
                  ∙ ap (λ b. some (done (b, record q1 { not_full = none }) k')) first,
              others,
              refl,
              record { head = v.head; tail = omega arith },
            )),
        (λ e inside. assert-not _ _ off ∙ if-true (intq_empty q) _ _ (empty e) ∙ rw inside refl),
        (λ e outside.
            assert-not _ _ off
            ∙ if-true (intq_empty q) _ _ (empty e)
            ∙ assert-not k.intr_context _ outside),
      )
