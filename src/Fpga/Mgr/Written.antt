-- ===== src/Fpga/Mgr/Written.antt =====
-- drivers/fpga/fpga-mgr.c: the bytes that a driver's write operation gets from a scatter list and
-- from one buffer.
use linux_dfl_backport.Base.{
  ℕ, zero, suc, ◌+◌, ◌-◌, ◌≤◌, ◌<◌, ◌≡◌, ◌≢◌, refl, sym, ap, subst, ◌∙◌, ◌⊎◌, inl, inr, Bool, true,
  false, not, List, [], ◌∷◌, ◌++◌, none, some, ◌==◌, leb, ◌&&◌, arith, Bool-cases, ==_iff,
  if◌then◌else◌, length, take, drop, flatten,
}
use mathlib.Core.List.{append-nil, append_assoc}
use linux_dfl_backport.Fpga.Mgr.Defs.{Info, Ops, Mgr, Kernel, returned, fpga_mgr_write}
use linux_dfl_backport.Fpga.Mgr.Load.{
  chunk_length, write_chunks, data_chunks, chunks_written, sg_written, data_of,
}

-- sg_miter_skip leaves the bytes behind the given number, where the list has as many.
abbrev pub Skips : Kernel → Type 0
Skips k =
    (chunks rest : List (List ℕ)) (n : ℕ)
    → k.sg_miter_skip chunks n ≡ some rest
    → flatten rest ≡ drop n (flatten chunks)

-- A write operation that succeeds and adds the bytes to what the device has got.
abbrev pub Records : {D : Type 0} → (D → List ℕ) → (List ℕ → D → ℕ × D) → Type 0
Records {D} log w =
    (bytes : List ℕ) (d : D) → ((w bytes d).0 ≡ 0) × (log (w bytes d).1 ≡ log d ++ bytes)

-- The bytes are added and no others, without an error.
abbrev pub Wrote : {D : Type 0} → (D → List ℕ) → Mgr D → List ℕ → Mgr D × ℕ → Type 0
Wrote log m bytes (t, ret) = (ret ≡ 0) × (log t.drv ≡ log m.drv ++ bytes)

take-length : (xs : List ℕ) → take (length xs) xs ≡ xs
take-length [] = refl
take-length (x ∷ xs) = ap (◌∷◌ x) (take-length xs)

take-nil : (n : ℕ) → take {A = ℕ} n [] ≡ []
take-nil zero = refl
take-nil (suc n) = refl

take-append_of_le : (n : ℕ) (xs ys : List ℕ) → n ≤ length xs → take n (xs ++ ys) ≡ take n xs
take-append_of_le zero xs ys h = refl
take-append_of_le (suc n) [] ys h = absurd (omega arith)
take-append_of_le (suc n) (x ∷ xs) ys h = ap (◌∷◌ x) (take-append_of_le n xs ys (omega arith))

take-append_of_ge :
    (n : ℕ) (xs ys : List ℕ) → length xs ≤ n → take n (xs ++ ys) ≡ xs ++ take (n - length xs) ys
take-append_of_ge n [] ys h = let e : n - 0 ≡ n = omega arith in ap (λ (k : ℕ). take k ys) (sym e)
take-append_of_ge zero (x ∷ xs) ys h = absurd (omega arith)
take-append_of_ge (suc n) (x ∷ xs) ys h =
    let e : n - length xs ≡ suc n - suc (length xs) = omega arith in
    ap (◌∷◌ x) (take-append_of_ge n xs ys (omega arith) ∙ ap (λ (k : ℕ). xs ++ take k ys) e)

-- What is still to be written of the bytes that follow, behind `count` bytes.
abbrev wanted : (data_size count : ℕ) → List ℕ → List ℕ
wanted data_size count bytes = if data_size == 0 then bytes else take (data_size - count) bytes

-- Whether the loop stops behind a chunk of which `size` bytes were written.
abbrev stops : (data_size count size : ℕ) → Bool
stops data_size count size = not (data_size == 0) && leb data_size (count + size)

given :
    (data_size count size : ℕ)
    → stops data_size count size ≡ true
    → (data_size ≡ 0) ⊎ (count < data_size)
    → count < data_size
given data_size count size stop h = ground arith

module _ (data_size count : ℕ) (chunk rest : List ℕ) where
  abbrev size : ℕ
  size = chunk_length data_size count (length chunk)

  all-length : data_size ≡ 0 → size ≡ length chunk
  unfolding chunk_length
  all-length z = ground arith

  last-length : data_size ≢ 0 → data_size - count ≤ length chunk → size ≡ data_size - count
  unfolding chunk_length
  last-length ne le = ground arith

  whole-length : data_size ≢ 0 → length chunk < data_size - count → size ≡ length chunk
  unfolding chunk_length
  whole-length ne lt = ground arith

  wanted-stop :
      stops data_size count size ≡ true
      → count < data_size
      → wanted data_size count (chunk ++ rest) ≡ take size chunk
  wanted-stop stop lt =
      let z : (data_size == 0) ≡ false = ground arith in
      elim (Bool-cases (leb (data_size - count) (length chunk))) [
        | inl le ↦
            rw (z, last-length (ground arith) (ground arith))
              (take-append_of_le (data_size - count) chunk rest (ground arith))
        | inr gt ↦ let e = whole-length (ground arith) (ground arith) in absurd (ground (arith, e))
      ]

  wanted-next :
      stops data_size count size ≡ false
      → (data_size ≡ 0) ⊎ (count < data_size)
      → (wanted data_size count (chunk ++ rest)
          ≡ take size chunk ++ wanted data_size (count + size) rest)
        × ((data_size ≡ 0) ⊎ (count + size < data_size))
  wanted-next go (inl none_given) =
      let z : (data_size == 0) ≡ true = ground arith in
      (rw (z, all-length none_given, take-length) refl, inl none_given)
  wanted-next go (inr lt) =
      let z : (data_size == 0) ≡ false = ground arith in
      elim (Bool-cases (leb (data_size - count) (length chunk))) [
        | inl le ↦ let e = last-length (ground arith) (ground arith) in absurd (ground (arith, e))
        | inr gt ↦
            let e = whole-length (ground arith) (ground arith) in
            let d : data_size - (count + length chunk) ≡ data_size - count - length chunk =
              omega arith in
            (
              rw (z, e, take-length, d)
                  (take-append_of_ge (data_size - count) chunk rest (ground arith)),
              inr (rw e (ground arith)),
            )
      ]

module _ {D : Type 0} (ops : Ops D) (w : List ℕ → D → ℕ × D) (log : D → List ℕ)
    (has : ops.write ≡ some w) (records : Records log w) where
  write-Wrote : (m : Mgr D) (bytes : List ℕ) → Wrote log m bytes (fpga_mgr_write ops.write m bytes)
  unfolding fpga_mgr_write returned
  write-Wrote m bytes = rw has (records bytes m.drv)

  -- A chunk is written whole or up to the end of the data, and the others follow or none.
  write_chunks-Wrote :
      (data_size count : ℕ) (chunks : List (List ℕ)) (m : Mgr D)
      → (data_size ≡ 0) ⊎ (count < data_size)
      → Wrote log m
          (wanted data_size count (flatten chunks))
          (write_chunks ops data_size count chunks m)
  unfolding write_chunks
  write_chunks-Wrote data_size count [] m h = (
    refl,
    sym (elim (Bool-cases (data_size == 0)) [
      | inl z ↦ rw z (append-nil (log m.drv))
      | inr z ↦ rw (z, take-nil) (append-nil (log m.drv))
    ]),
  )
  write_chunks-Wrote data_size count (chunk ∷ chunks) m h =
      let n = size data_size count chunk (flatten chunks) in
      let r = fpga_mgr_write ops.write m (take n chunk) in
      let (status, logged) = write-Wrote m (take n chunk) in
      let good : (r.1 == 0) ≡ true = (==_iff r.1 0).1 status in
      elim (Bool-cases (stops data_size count n)) [
        | inl stop ↦
            rw (good, stop)
              (
                refl,
                logged
                    ∙ ap (λ l. log m.drv ++ l)
                        (sym (
                          wanted-stop data_size count chunk (flatten chunks) stop
                            (given data_size count n stop h))),
              )
        | inr go ↦
            let (e, h') = wanted-next data_size count chunk (flatten chunks) go h in
            let (status', logged') = write_chunks-Wrote data_size (count + n) chunks r.0 h' in
            rw (good, go)
              (
                status',
                logged'
                    ∙ ap (λ l. l ++ wanted data_size (count + n) (flatten chunks)) logged
                    ∙ append_assoc (log m.drv) (take n chunk)
                        (wanted data_size (count + n) (flatten chunks))
                    ∙ ap (λ l. log m.drv ++ l) (sym e),
              )
      ]

  -- The bytes behind the header, if the driver wants to skip it.
  data_chunks-flatten :
      (k : Kernel) (chunks cs : List (List ℕ)) (n : ℕ) (skip : Bool)
      → Skips k
      → (if skip then k.sg_miter_skip chunks n else some chunks) ≡ some cs
      → flatten cs ≡ (if skip then drop n (flatten chunks) else flatten chunks)
  data_chunks-flatten k chunks cs n true skips e = skips chunks cs n e
  data_chunks-flatten k chunks cs n false skips e = let q : cs ≡ chunks = cc in ap flatten q

  zero_or_pos : (n : ℕ) → (n ≡ 0) ⊎ (0 < n)
  zero_or_pos zero = inl refl
  zero_or_pos (suc n) = inr (omega arith)

  chunks-Wrote :
      (k : Kernel) (chunks cs : List (List ℕ)) (m : Mgr D)
      → data_chunks ops k chunks m.info.header_size ≡ some cs
      → Wrote log m (wanted m.info.data_size 0 (flatten cs)) (sg_written ops none k chunks m)
  unfolding sg_written chunks_written
  chunks-Wrote k chunks cs m e =
      subst (λ o. Wrote log m (wanted m.info.data_size 0 (flatten cs)) (chunks_written ops m o))
        (sym e) (write_chunks-Wrote m.info.data_size 0 cs m (zero_or_pos m.info.data_size))

  data_of-wanted :
      (info : Info) (chunks cs : List (List ℕ))
      → flatten cs
        ≡ (if ops.skip_header then drop info.header_size (flatten chunks) else flatten chunks)
      → wanted info.data_size 0 (flatten cs) ≡ data_of ops info (flatten chunks)
  unfolding data_of
  data_of-wanted info chunks cs e =
      let z : info.data_size - 0 ≡ info.data_size = omega arith in
      ap (λ (n : ℕ). if info.data_size == 0 then flatten cs else take n (flatten cs)) z
      ∙ ap (λ l. if info.data_size == 0 then l else take info.data_size l) e

  -- A driver without write_sg, whose write succeeds and records what it gets, records from a
  -- scatter list that the skip of the header leaves chunks of exactly the bytes that it gets from
  -- the same image in one buffer: the data behind the header, up to the size that the driver asks
  -- for.
  pub sg_written-mapped :
      (k : Kernel) (chunks cs : List (List ℕ)) (m : Mgr D)
      → Skips k
      → data_chunks ops k chunks m.info.header_size ≡ some cs
      → Wrote log m (data_of ops m.info (flatten chunks)) (sg_written ops none k chunks m)
        × Wrote log m
            (data_of ops m.info (flatten chunks))
            (fpga_mgr_write ops.write m (data_of ops m.info (flatten chunks)))
  sg_written-mapped k chunks cs m skips e = (
    subst (λ l. Wrote log m l (sg_written ops none k chunks m))
        (data_of-wanted m.info chunks cs same) (chunks-Wrote k chunks cs m e),
    write-Wrote m (data_of ops m.info (flatten chunks)),
  )
    where
      same :
          flatten cs
          ≡ (if ops.skip_header then drop m.info.header_size (flatten chunks) else flatten chunks)
      same =
          data_chunks-flatten k chunks cs m.info.header_size ops.skip_header skips
            (unfold data_chunks in e)
