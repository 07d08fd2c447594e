-- ===== src/Stream/Decode/Panics.antt =====
-- Which data makes decodeDynamic and decodeLog of internal/stream/decode.go panic, and which cannot.
use evm_tools.Base.{
  Bool-cases, ℕ, ◌+◌, ◌-◌, ◌^◌, ◌≤◌, ◌<◌, ◌≡◌, ◌↔◌, ◌⊎◌, inl, inr, arith, true, false, Text, codes,
  length, take, drop, leb, text_eq, signed_lt, add64,
}
use evm_tools.Base.Exec.{done, failed, panicked}
use evm_tools.Stream.Decode.Hex.{Bytes, undecodable, be_value, slice}
use evm_tools.Stream.Decode.Data.{payload, decode_payload, decode_dynamic}

-- An offset at which `offset + 32` leaves the int64 panics, for every type, whatever the data holds
-- behind its first 32 bytes.
pub decode_dynamic-panics :
    (max_elements : ℕ) (typ : Text) (bytes : Bytes) (offset : ℕ)
    → 32 ≤ length bytes
    → length bytes < 2 ^ 63
    → 2 ^ 63 ≤ offset + 32
    → offset < 2 ^ 64
    → decode_dynamic max_elements typ bytes offset ≡ panicked
unfolding decode_dynamic slice
decode_dynamic-panics max_elements typ bytes offset lo hi bad word = ground arith

slice-in_range :
    (bytes : Bytes) (lo hi n : ℕ)
    → hi ≡ lo + n
    → hi ≤ length bytes
    → slice bytes lo hi ≡ done (take n (drop lo bytes))
unfolding slice
slice-in_range bytes lo hi n e fits =
    let size : hi - lo ≡ n = omega arith in
    let below : leb lo hi ≡ true = ground arith in
    let within : leb hi (length bytes) ≡ true = ground arith in rw (below, within, size)

module _ (bytes : Bytes) (offset : ℕ) (hi : offset + 32 ≤ length bytes)
    (len : length bytes < 2 ^ 63) where
  end_fits : signed_lt (length bytes) (add64 offset 32) ≡ false
  end_fits = ground arith

  end_exact : add64 offset 32 ≡ offset + 32
  end_exact = omega arith

  word_slice : slice bytes offset (add64 offset 32) ≡ done (take 32 (drop offset bytes))
  word_slice = slice-in_range bytes offset (add64 offset 32) 32 end_exact (omega arith)

  -- An offset whose word lies in the data goes on with the count of that word.
  pub decode_dynamic-in_range :
      (max_elements : ℕ) (typ : Text)
      → be_value 0 (take 32 (drop offset bytes)) < 2 ^ 64
      → decode_dynamic max_elements typ bytes offset
        ≡ decode_payload max_elements typ bytes offset (be_value 0 (take 32 (drop offset bytes)))
  unfolding decode_dynamic
  decode_dynamic-in_range max_elements typ word =
      let small : leb (2 ^ 64) (be_value 0 (take 32 (drop offset bytes))) ≡ false = ground arith in
      rw (end_fits, word_slice, small)

  -- The payload of bytes and string panics exactly if its end leaves the int64.
  pub payload-panics :
      (count : ℕ)
      → count < 2 ^ 64
      → (payload bytes offset count ≡ panicked) ↔ (2 ^ 63 ≤ offset + 32 + count)
  unfolding payload slice
  payload-panics count word = (λ h. ground arith, λ h. ground arith)

  decode_payload-panics :
      (max_elements : ℕ) (typ : Text) (count : ℕ)
      → (typ ≡ codes "bytes") ⊎ (typ ≡ codes "string")
      → count < 2 ^ 64
      → (decode_payload max_elements typ bytes offset count ≡ panicked)
        ↔ (2 ^ 63 ≤ offset + 32 + count)
  unfolding decode_payload text_eq
  decode_payload-panics max_elements typ count (inl e) word = rw e (
    λ h. ground (arith, payload-panics count word),
    λ h. ground (arith, payload-panics count word),
  )
  decode_payload-panics max_elements typ count (inr e) word = rw e (payload-panics count word)

  too_many :
      (max_elements : ℕ) (typ : Text)
      → leb (2 ^ 64) (be_value 0 (take 32 (drop offset bytes))) ≡ true
      → decode_dynamic max_elements typ bytes offset ≡ failed undecodable
  unfolding decode_dynamic
  too_many max_elements typ over = rw (end_fits, word_slice, over)

  in_range_panics :
      (max_elements : ℕ) (typ : Text)
      → (typ ≡ codes "bytes") ⊎ (typ ≡ codes "string")
      → (decode_dynamic max_elements typ bytes offset ≡ panicked) ↔ (
          (be_value 0 (take 32 (drop offset bytes)) < 2 ^ 64)
          × (2 ^ 63 ≤ offset + 32 + be_value 0 (take 32 (drop offset bytes))))
  in_range_panics max_elements typ form =
      let count = be_value 0 (take 32 (drop offset bytes)) in
      elim (Bool-cases (leb (2 ^ 64) count)) [
        | inl over ↦ (λ h. cc (too_many max_elements typ over), λ h. absurd (ground arith))
        | inr fits ↦
            let word : count < 2 ^ 64 = ground arith in
            rw (decode_dynamic-in_range max_elements typ word) (
              let iff = decode_payload-panics max_elements typ count form word in
              (λ h. (word, iff.0 h), λ h. iff.1 h.1))
      ]

past_end :
    (max_elements : ℕ) (typ : Text) (bytes : Bytes) (offset : ℕ)
    → length bytes < offset + 32
    → length bytes < 2 ^ 63
    → offset + 32 < 2 ^ 63
    → decode_dynamic max_elements typ bytes offset ≡ failed undecodable
unfolding decode_dynamic
past_end max_elements typ bytes offset past len good = ground arith

-- For bytes and string the panic is exact: decodeDynamic panics if and only if the offset, or the
-- end of the payload whose length word lies in the data, leaves the int64. The data has at least one
-- word, as decodeData has checked.
pub decode_dynamic-panics_iff :
    (max_elements : ℕ) (typ : Text) (bytes : Bytes) (offset : ℕ)
    → (typ ≡ codes "bytes") ⊎ (typ ≡ codes "string")
    → 32 ≤ length bytes
    → length bytes < 2 ^ 63
    → offset < 2 ^ 64
    → (decode_dynamic max_elements typ bytes offset ≡ panicked) ↔ (
        (2 ^ 63 ≤ offset + 32)
        ⊎ ((offset + 32 ≤ length bytes)
            × (be_value 0 (take 32 (drop offset bytes)) < 2 ^ 64)
            × (2 ^ 63 ≤ offset + 32 + be_value 0 (take 32 (drop offset bytes)))))
decode_dynamic-panics_iff max_elements typ bytes offset form lo len word =
    elim (Bool-cases (leb (2 ^ 63) (offset + 32))) [
      | inl bad ↦ (
        λ h. inl (ground arith),
        λ h. decode_dynamic-panics max_elements typ bytes offset lo len (ground arith) word,
      )
      | inr good ↦ elim (Bool-cases (leb (offset + 32) (length bytes))) [
        | inr past ↦ (
          λ h. cc (past_end max_elements typ bytes offset (ground arith) len (ground arith)),
          λ h. absurd (ground arith),
        )
        | inl fits ↦
            let iff = in_range_panics bytes offset (ground arith) len max_elements typ form in
            (λ h. let r = iff.0 h in inr (ground arith, r.0, r.1), λ h. iff.1 (ground arith))
      ]
    ]
