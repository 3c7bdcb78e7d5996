-- ===== src/Storage/Wal/Frames.antt =====
-- The bytes that the log of crates/rustafari-storage/src/wal.rs holds.
use rustafari_db.Common.{
  ℕ, zero, suc, ◌-◌, ◌%◌, ◌^◌, ◌≤◌, ◌≡◌, refl, ◌∙◌, sym, ap, subst, List, [], ◌∷◌, ◌++◌, none, some,
  length, take, drop, ltb, leb, arith, append-nil, append_assoc, Bool-cases, inl, inr,
}
use rustafari_db.Core.Error.{Result, ok, err, panic, io}
use rustafari_db.Storage.Wal.{
  WalRecord, WalWriter, System, Write, le_bytes, write_file, write_buffer, flush, store_bytes,
  write_all, append, buffer_capacity, ◌>>◌,
}

-- One record of the log: its length in four bytes, and its bytes.
abbrev pub frame : List ℕ → List ℕ
frame bytes = le_bytes 4 (length bytes % 2 ^ 32) ++ bytes

-- All that was written, to the file or to the buffer.
abbrev pub written : WalWriter → List ℕ
written w = w.file ++ w.buffer

-- The file has grown by bytes that, with what is left over, are the buffer and the new bytes.
abbrev pub Grows : List ℕ → List ℕ → WalWriter → WalWriter → Type 0
Grows bytes rest w w' = (p : List ℕ) × (w'.file ≡ w.file ++ p) × (p ++ rest ≡ w.buffer ++ bytes)

-- The outcome of a step that writes bytes: it ends well, and what is left over waits in the buffer,
-- or with an error, and the file has grown by a prefix of what was to be written.
abbrev pub Extends : List ℕ → WalWriter → Result (Unit {0}) × WalWriter → Type 0
Extends bytes w (ok _, w') = Grows bytes w'.buffer w w'
Extends bytes w (err _, w') = (rest : List ℕ) × Grows bytes rest w w'
Extends bytes w (panic, w') = ⊥

-- The outcome of an append.
abbrev pub Records : List ℕ → WalWriter → Result (Unit {0}) × WalWriter → Type 0
Records bytes w (ok _, w') = (w'.file ≡ w.file ++ (w.buffer ++ bytes)) × (w'.buffer ≡ [])
Records bytes w (err _, w') = (rest : List ℕ) × Grows bytes rest w w'
Records bytes w (panic, w') = ⊥

take-drop : (n : ℕ) (xs : List ℕ) → take n xs ++ drop n xs ≡ xs
take-drop zero xs = refl
take-drop (suc n) [] = refl
take-drop (suc n) (x ∷ xs) = ap (◌∷◌ x) (take-drop n xs)

-- A file that grows by some bytes, and then by more.
Grows-trans :
    (a b left rest : List ℕ) (w w' w'' : WalWriter)
    → w'.buffer ≡ left
    → Grows a left w w'
    → Grows b rest w' w''
    → Grows (a ++ b) rest w w''
Grows-trans a b left rest w w' w'' e (p, f, g) (q, f', g') = (
  p ++ q,
  f' ∙ ap (λ xs. xs ++ q) f ∙ append_assoc w.file p q,
  append_assoc p q rest
      ∙ ap (λ xs. p ++ xs) (g' ∙ ap (λ xs. xs ++ b) e)
      ∙ sym (append_assoc p left b)
      ∙ ap (λ xs. xs ++ b) g
      ∙ append_assoc w.buffer a b,
)

-- A prefix of some bytes is one of more bytes.
Grows-weaken :
    (a b rest : List ℕ) (w w' : WalWriter) → Grows a rest w w' → Grows (a ++ b) (rest ++ b) w w'
Grows-weaken a b rest w w' (p, f, g) =
    (p, f, sym (append_assoc p rest b) ∙ ap (λ xs. xs ++ b) g ∙ append_assoc w.buffer a b)

-- The second of two steps, from the writer that the first leaves.
Extends-second :
    (a b : List ℕ) (w w' : WalWriter) (r : Result (Unit {0}) × WalWriter)
    → Grows a w'.buffer w w'
    → Extends b w' r
    → Extends (a ++ b) w r
Extends-second a b w w' (ok _, w'') g z = Grows-trans a b w'.buffer w''.buffer w w' w'' refl g z
Extends-second a b w w' (err _, w'') g (rest, z) =
    (rest, Grows-trans a b w'.buffer rest w w' w'' refl g z)
Extends-second a b w w' (panic, w'') g z = absurd z

Extends-chain :
    (a b : List ℕ) (m n : Write) (w : WalWriter)
    → Extends a w (m w)
    → ((w' : WalWriter) → m w ≡ (ok tt, w') → Extends b w' (n w'))
    → Extends (a ++ b) w ((m >> n) w)
Extends-chain a b m n w x y = chain (m w) refl x
  where
    chain :
        (r : Result (Unit {0}) × WalWriter)
        → m w ≡ r
        → Extends a w r
        → Extends
            (a ++ b)
            w
            (elim r.0 [ ok _ ↦ n r.1 | err e ↦ (err e, r.1) | panic ↦ (panic, r.1) ])
    chain (ok _, w') e g = Extends-second a b w w' (n w') g (y w' e)
    chain (err _, w') e (rest, g) = (rest ++ b, Grows-weaken a b rest w w' g)
    chain (panic, w') e z = absurd z

module _ (system : System) where
  write_buffer-Extends : (w : WalWriter) → Extends [] w (write_buffer system w)
  unfolding write_buffer
  write_buffer-Extends w =
      elim (system w.file w.buffer)
        as (λ o. Extends [] w (elim o [
          | none ↦ (ok tt, record { file = w.file ++ w.buffer; buffer = [] })
          | some (n, e) ↦
              (err (io e), record { file = w.file ++ take n w.buffer; buffer = drop n w.buffer })
        ])) [
          | none ↦ (w.buffer, refl, refl)
          | some (n, e) ↦ (
            drop n w.buffer,
            (take n w.buffer, refl, take-drop n w.buffer ∙ sym (append-nil w.buffer)),
          )
        ]

  flush-Extends : (w : WalWriter) → Extends [] w (flush system w)
  unfolding flush
  flush-Extends w =
      elim w.buffer
        as (λ b. Extends [] w (elim b [ [] ↦ (ok tt, w) | _ ↦ write_buffer system w ])) [
          | [] ↦ ([], sym (append-nil w.file), sym (append-nil w.buffer))
          | ◌∷◌ _ _ ↦ write_buffer-Extends w
        ]

  flush_empties : (w w' : WalWriter) → flush system w ≡ (ok tt, w') → w'.buffer ≡ []
  unfolding flush write_buffer
  flush_empties w w' e = ground (arith, e)

  -- Bytes are written at once only where nothing waits in the buffer.
  write_file-Extends :
      (bytes : List ℕ) (w : WalWriter) → w.buffer ≡ [] → Extends bytes w (write_file system bytes w)
  unfolding write_file
  write_file-Extends bytes w e =
      elim (system w.file bytes)
        as (λ o. Extends bytes w (elim o [
          | none ↦ (ok tt, record w { file = w.file ++ bytes })
          | some (n, x) ↦ (err (io x), record w { file = w.file ++ take n bytes })
        ])) [
          | none ↦ (bytes, refl, rw e (append-nil bytes))
          | some (n, x) ↦ (drop n bytes, (take n bytes, refl, rw e (take-drop n bytes)))
        ]

  store_bytes-Extends :
      (bytes : List ℕ) (w : WalWriter)
      → (buffer_capacity ≤ length bytes → w.buffer ≡ [])
      → Extends bytes w (store_bytes system bytes w)
  unfolding store_bytes
  store_bytes-Extends bytes w k = elim (Bool-cases (leb buffer_capacity (length bytes))) [
    | inl large ↦ rw large (write_file-Extends bytes w (k (ground arith)))
    | inr small ↦ rw small ([], sym (append-nil w.file), refl)
  ]

  nil_of_length : (xs : List ℕ) → length xs ≡ 0 → xs ≡ []
  nil_of_length [] e = refl
  nil_of_length (x ∷ xs) e = absurd (omega arith)

  write_all-Extends : (bytes : List ℕ) (w : WalWriter) → Extends bytes w (write_all system bytes w)
  unfolding write_all
  write_all-Extends bytes w =
      elim (Bool-cases (ltb (buffer_capacity - length w.buffer) (length bytes))) [
        | inl full ↦ rw full (
            Extends-chain [] bytes (flush system) (store_bytes system bytes) w (flush-Extends w)
              λ w' e. store_bytes-Extends bytes w' λ _. flush_empties w w' e)
        | inr room ↦
            rw room (store_bytes-Extends bytes w λ large. nil_of_length w.buffer (ground arith))
      ]

  -- A flush after a step: all of it reaches the file, or a prefix.
  Records-flush :
      (a : List ℕ) (m : Write) (w : WalWriter)
      → Extends a w (m w)
      → Records a w ((m >> flush system) w)
  Records-flush a m w x = after (m w) x
    where
      flushed :
          (w' : WalWriter) (r : Result (Unit {0}) × WalWriter)
          → flush system w' ≡ r
          → Grows a w'.buffer w w'
          → Extends [] w' r
          → Records a w r
      flushed w' (ok _, w'') e g z =
          let (p, f, k) = Extends-second a [] w w' (ok tt, w'') g z in
          let empty = flush_empties w' w'' e in
          (
            f
                ∙ ap (λ xs. w.file ++ xs)
                    (sym (append-nil p)
                      ∙ ap (λ xs. p ++ xs) (sym empty)
                      ∙ k
                      ∙ ap (λ xs. w.buffer ++ xs) (append-nil a)),
            empty,
          )
      flushed w' (err _, w'') e g (rest, z) =
          let (p, f, k) = Grows-trans a [] w'.buffer rest w w' w'' refl g z in
          (rest, (p, f, k ∙ ap (λ xs. w.buffer ++ xs) (append-nil a)))
      flushed w' (panic, w'') e g z = absurd z

      after :
          (r : Result (Unit {0}) × WalWriter)
          → Extends a w r
          → Records a w
              (elim r.0 [ ok _ ↦ flush system r.1 | err e ↦ (err e, r.1) | panic ↦ (panic, r.1) ])
      after (ok _, w') g = flushed w' (flush system w') refl g (flush-Extends w')
      after (err _, w') z = z
      after (panic, w') z = absurd z

  -- Whatever the system does of the writes, appending a record extends the file by a prefix of what
  -- waits in the buffer, then the length of the record in four bytes, then its bytes: by all of it,
  -- with nothing left in the buffer, where it ends well. It never panics.
  pub append-Records :
      (to_vec : WalRecord → Result (List ℕ)) (r : WalRecord) (bytes : List ℕ) (w : WalWriter)
      → to_vec r ≡ ok bytes
      → Records (frame bytes) w (append system to_vec r w)
  unfolding append
  append-Records to_vec r bytes w e =
      let header : List ℕ = le_bytes 4 (length bytes % 2 ^ 32) in
      subst
        (λ (o : Result (List ℕ)). Records (frame bytes) w (elim o [
          | ok b ↦
              ((write_all system (le_bytes 4 (length b % 2 ^ 32)) >> write_all system b)
                  >> flush system)
                w
          | err x ↦ (err x, w)
          | panic ↦ (panic, w)
        ]))
        (sym e)
        (Records-flush (frame bytes) (write_all system header >> write_all system bytes) w (
          Extends-chain header bytes (write_all system header) (write_all system bytes) w
            (write_all-Extends header w) λ w' _. write_all-Extends bytes w'))
