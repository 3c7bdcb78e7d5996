-- ===== src/Storage/Wal/Writes.antt =====
-- The log of crates/rustafari-storage/src/wal.rs on a system that takes every write.
use rustafari_db.Common.{
  ℕ, ◌-◌, ◌%◌, ◌^◌, ◌≡◌, refl, ◌∙◌, ap, true, false, List, [], ◌∷◌, ◌++◌, none, some, length, leb,
  ltb, if◌then◌else◌,
}
use rustafari_db.Core.Error.{Result, ok, err, panic}
use rustafari_db.Storage.Wal.{
  WalRecord, WalWriter, open_file, System, Write, le_bytes, write_file, write_buffer, flush,
  store_bytes, write_all, append, buffer_capacity, ◌>>◌,
}
use rustafari_db.Storage.Wal.Log.{append_all, Encodes, read_log, read_log-append_all}

-- The outcome is no error.
abbrev pub IsDone : Result (Unit {0}) × WalWriter → Type 0
IsDone r = (v : WalWriter) × (r ≡ (ok tt, v))

-- The step ends well from every writer.
abbrev EndsWell : Write → Type 0
EndsWell m = (w : WalWriter) → IsDone (m w)

EndsWell-chain : (m n : Write) → EndsWell m → EndsWell n → EndsWell (m >> n)
EndsWell-chain m n p q w =
    let (v, e) = p w in
    let (u, f) = q v in
    (u, ap (λ r. elim r.0 [ ok _ ↦ n r.1 | err x ↦ (err x, r.1) | panic ↦ (panic, r.1) ]) e ∙ f)

module _ (system : System) (takes : (file bytes : List ℕ) → system file bytes ≡ none) where
  write_file-EndsWell : (bytes : List ℕ) → EndsWell (write_file system bytes)
  unfolding write_file
  write_file-EndsWell bytes w =
      (record w { file = w.file ++ bytes }, rw (takes w.file bytes, write_file) refl)

  write_buffer-EndsWell : EndsWell (write_buffer system)
  unfolding write_buffer
  write_buffer-EndsWell w = (
    record { file = w.file ++ w.buffer; buffer = [] },
    rw (takes w.file w.buffer, write_buffer) refl,
  )

  flush-EndsWell : EndsWell (flush system)
  unfolding flush
  flush-EndsWell w =
      elim w.buffer as (λ b. IsDone (elim b [ [] ↦ (ok tt, w) | _ ↦ write_buffer system w ])) [
        | [] ↦ (w, refl)
        | ◌∷◌ _ _ ↦ write_buffer-EndsWell w
      ]

  store_bytes-EndsWell : (bytes : List ℕ) → EndsWell (store_bytes system bytes)
  unfolding store_bytes
  store_bytes-EndsWell bytes w =
      elim (leb buffer_capacity (length bytes))
        as (λ b.
          (v : WalWriter) × ((if b
              then write_file system bytes w
              else (ok tt, record w { buffer = w.buffer ++ bytes }))
            ≡ (ok tt, v))) [ true ↦ write_file-EndsWell bytes w | false ↦ (_, refl) ]

  write_all-EndsWell : (bytes : List ℕ) → EndsWell (write_all system bytes)
  unfolding write_all
  write_all-EndsWell bytes w =
      elim (ltb (buffer_capacity - length w.buffer) (length bytes))
        as (λ b.
          (v : WalWriter) × ((if b
              then (flush system >> store_bytes system bytes) w
              else store_bytes system bytes w)
            ≡ (ok tt, v))) [
              | true ↦
                  EndsWell-chain (flush system) (store_bytes system bytes) flush-EndsWell
                    (store_bytes-EndsWell bytes) w
              | false ↦ store_bytes-EndsWell bytes w
            ]

  append-EndsWell :
      (to_vec : WalRecord → Result (List ℕ)) (r : WalRecord) (b : List ℕ)
      → to_vec r ≡ ok b
      → EndsWell (append system to_vec r)
  unfolding append
  append-EndsWell to_vec r b e w =
      let header = write_all system (le_bytes 4 (length b % 2 ^ 32)) in
      let (v, f) =
        EndsWell-chain (header >> write_all system b) (flush system)
          (EndsWell-chain header (write_all system b)
            (write_all-EndsWell (le_bytes 4 (length b % 2 ^ 32))) (write_all-EndsWell b))
          flush-EndsWell w in
      (v, rw (e, append) f)

  append_all-EndsWell :
      (to_vec : WalRecord → Result (List ℕ)) (rs : List WalRecord) (bs : List (List ℕ))
      → Encodes to_vec rs bs
      → EndsWell (append_all system to_vec rs)
  unfolding append_all
  append_all-EndsWell to_vec [] bs c w = (w, refl)
  append_all-EndsWell to_vec (r ∷ rs) [] c w = absurd c
  append_all-EndsWell to_vec (r ∷ rs) (b ∷ bs) c w =
      EndsWell-chain (append system to_vec r) (append_all system to_vec rs)
        (append-EndsWell to_vec r b c.0) (append_all-EndsWell to_vec rs bs c.2) w

  -- On a system that takes every write, every append of a record ends well, and the log that a new
  -- file then holds is read back whole. Every record has an encoding, and each encoding is shorter
  -- than 2 ^ 32 bytes.
  pub append_all-read_log :
      (to_vec : WalRecord → Result (List ℕ)) (rs : List WalRecord) (bs : List (List ℕ))
      → Encodes to_vec rs bs
      → (w : WalWriter) × (append_all system to_vec rs (open_file []) ≡ (ok tt, w))
        × (read_log (length w.file) w.file ≡ some bs)
  append_all-read_log to_vec rs bs c =
      let (w, e) = append_all-EndsWell to_vec rs bs c (open_file []) in
      (w, e, read_log-append_all system to_vec rs bs w c e)
