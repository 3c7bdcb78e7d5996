-- ===== src/Storage/Wal/Log.antt =====
-- A log that crates/rustafari-storage/src/wal.rs wrote, read back record by record.
use rustafari_db.Common.{
  ℕ, zero, suc, ◌+◌, ◌*◌, ◌/◌, ◌%◌, ◌^◌, ◌<◌, ◌≤◌, ◌≡◌, refl, ◌∙◌, sym, ap, subst, Bool, true, List,
  [], ◌∷◌, ◌++◌, Option, none, some, length, length-append, take, drop, leb, arith, append-nil,
  append_assoc, if◌then◌else◌,
}
use rustafari_db.Core.Error.{Result, ok, err, panic}
use rustafari_db.Storage.Wal.{WalRecord, WalWriter, open_file, System, Write, append, ◌>>◌}
use rustafari_db.Storage.Wal.Frames.{frame, Records, append-Records}

-- A reader of the format: four bytes of length, and as many bytes of a record, to the end of the log.
-- `fuel` bounds the records; the length of the log is enough.
unfoldable pub read_log : ℕ → List ℕ → Option (List (List ℕ))
read_log fuel [] = some []
read_log (suc fuel) (a ∷ b ∷ c ∷ d ∷ bytes) =
    let n = a + 256 * b + 65536 * c + 16777216 * d in
    let rest = read_log fuel (drop n bytes) in
    if leb n (length bytes)
    then elim rest [ none ↦ none | some rs ↦ some (take n bytes ∷ rs) ]
    else none
read_log _ _ = none

abbrev pub frames : List (List ℕ) → List ℕ
frames [] = []
frames (b ∷ bs) = frame b ++ frames bs

-- The encodings of the records, each shorter than 2 ^ 32 bytes.
abbrev pub Encodes : (WalRecord → Result (List ℕ)) → List WalRecord → List (List ℕ) → Type 0
Encodes to_vec [] [] = Unit
Encodes to_vec (r ∷ rs) (b ∷ bs) = (to_vec r ≡ ok b) × (length b < 2 ^ 32) × Encodes to_vec rs bs
Encodes to_vec _ _ = ⊥

take-length : (xs ys : List ℕ) → take (length xs) (xs ++ ys) ≡ xs
take-length [] ys = refl
take-length (x ∷ xs) ys = ap (◌∷◌ x) (take-length xs ys)

drop-length : (xs ys : List ℕ) → drop (length xs) (xs ++ ys) ≡ ys
drop-length [] ys = refl
drop-length (x ∷ xs) ys = drop-length xs ys

of_le_bytes :
    (n : ℕ)
    → n < 2 ^ 32
    → let m = n % 2 ^ 32 in
      m % 256
        + 256 * (m / 256 % 256)
        + 65536 * (m / 256 / 256 % 256)
        + 16777216 * (m / 256 / 256 / 256 % 256)
      ≡ n
of_le_bytes n l = omega arith

-- The sizes are below 2 ^ 32.
abbrev Short : List (List ℕ) → Type 0
Short [] = Unit
Short (b ∷ bs) = (length b < 2 ^ 32) × Short bs

read_log-frames :
    (fuel : ℕ) (bs : List (List ℕ))
    → Short bs
    → length (frames bs) ≤ fuel
    → read_log fuel (frames bs) ≡ some bs
unfolding read_log
read_log-frames zero [] s l = refl
read_log-frames (suc fuel) [] s l = refl
read_log-frames zero (b ∷ bs) s l = absurd (omega arith)
read_log-frames (suc fuel) (b ∷ bs) s l =
    let size = of_le_bytes (length b) s.0 in
    let fits : leb (length b) (length (b ++ frames bs)) ≡ true =
      ground (arith, length-append b (frames bs)) in
    let ih : read_log fuel (frames bs) ≡ some bs =
      read_log-frames fuel bs s.1 (omega (arith, length-append b (frames bs))) in
    let bytes : List ℕ = b ++ frames bs in
    let body : ℕ → Option (List (List ℕ)) = λ n.
      if leb n (length bytes)
      then elim (read_log fuel (drop n bytes)) [ none ↦ none | some rs ↦ some (take n bytes ∷ rs) ]
      else none in
    let there : elim (read_log fuel (drop (length b) bytes)) [
      | none ↦ none
      | some rs ↦ some (take (length b) bytes ∷ rs)
    ]
        ≡ some (b ∷ bs) =
      ap (λ m. elim (read_log fuel m) [ none ↦ none | some rs ↦ some (take (length b) bytes ∷ rs) ])
        (drop-length b (frames bs))
      ∙ ap (λ o. elim o [ none ↦ none | some rs ↦ some (take (length b) bytes ∷ rs) ]) ih
      ∙ ap (λ x. some (x ∷ bs)) (take-length b (frames bs)) in
    ap body size
    ∙ ap
        (λ (t : Bool).
          if t
          then elim (read_log fuel (drop (length b) bytes)) [
            | none ↦ none
            | some rs ↦ some (take (length b) bytes ∷ rs)
          ]
          else none)
        fits
    ∙ there

module _ (system : System) (to_vec : WalRecord → Result (List ℕ)) where
  -- Records appended one after the other, up to the first error.
  unfoldable pub append_all : List WalRecord → Write
  append_all [] w = (ok tt, w)
  append_all (r ∷ rs) w = let next = append_all rs in (append system to_vec r >> next) w

  append_ok :
      (r : WalRecord) (b : List ℕ) (w w' : WalWriter)
      → to_vec r ≡ ok b
      → append system to_vec r w ≡ (ok tt, w')
      → (w'.file ≡ w.file ++ (w.buffer ++ frame b)) × (w'.buffer ≡ [])
  append_ok r b w w' e a = subst (Records (frame b) w) a (append-Records system to_vec r b w e)

  chained_ok :
      (m n : Write) (w w'' : WalWriter)
      → (m >> n) w ≡ (ok tt, w'')
      → (w' : WalWriter) × (m w ≡ (ok tt, w')) × (n w' ≡ (ok tt, w''))
  chained_ok m n w w'' e = split (m w) refl e
    where
      split :
          (r : Result (Unit {0}) × WalWriter)
          → m w ≡ r
          → elim r.0 [ ok _ ↦ n r.1 | err x ↦ (err x, r.1) | panic ↦ (panic, r.1) ] ≡ (ok tt, w'')
          → (w' : WalWriter) × (m w ≡ (ok tt, w')) × (n w' ≡ (ok tt, w''))
      split (ok _, w') k f = (w', k, f)
      split (err x, w') k f = cc
      split (panic, w') k f = cc

  appended :
      (rs : List WalRecord) (bs : List (List ℕ)) (w w' : WalWriter)
      → Encodes to_vec rs bs
      → w.buffer ≡ []
      → append_all rs w ≡ (ok tt, w')
      → w'.file ≡ w.file ++ frames bs
  unfolding append_all
  appended [] [] w w' c e a = ap (λ x. x.1.file) (sym a) ∙ sym (append-nil w.file)
  appended [] (b ∷ bs) w w' c e a = absurd c
  appended (r ∷ rs) [] w w' c e a = absurd c
  appended (r ∷ rs) (b ∷ bs) w w' c e a =
      let (v, first, more) = chained_ok (append system to_vec r) (append_all rs) w w' a in
      let (f, k) = append_ok r b w v c.0 first in
      appended rs bs v w' c.2 k more
      ∙ ap (λ xs. xs ++ frames bs) (f ∙ ap (λ xs. w.file ++ (xs ++ frame b)) e)
      ∙ append_assoc w.file (frame b) (frames bs)

Encodes-Short :
    (to_vec : WalRecord → Result (List ℕ)) (rs : List WalRecord) (bs : List (List ℕ))
    → Encodes to_vec rs bs
    → Short bs
Encodes-Short to_vec [] [] c = tt
Encodes-Short to_vec [] (b ∷ bs) c = absurd c
Encodes-Short to_vec (r ∷ rs) [] c = absurd c
Encodes-Short to_vec (r ∷ rs) (b ∷ bs) c = (c.1, Encodes-Short to_vec rs bs c.2)

-- Records appended to a new log are read back from the file, each once and in order, whatever the
-- system does of the writes, if every append ends well. The encoder yields bytes for each record,
-- fewer than 2 ^ 32.
pub read_log-append_all :
    (system : System) (to_vec : WalRecord → Result (List ℕ)) (rs : List WalRecord)
    (bs : List (List ℕ)) (w : WalWriter)
    → Encodes to_vec rs bs
    → append_all system to_vec rs (open_file []) ≡ (ok tt, w)
    → read_log (length w.file) w.file ≡ some bs
read_log-append_all system to_vec rs bs w c a =
    let file : w.file ≡ frames bs = appended system to_vec rs bs (open_file []) w c refl a in
    ap (λ xs. read_log (length xs) xs) file
    ∙ read_log-frames (length (frames bs)) bs (Encodes-Short to_vec rs bs c) (omega arith)
