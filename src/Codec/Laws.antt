-- ===== src/Codec/Laws.antt =====
-- What was marshalled decodes, and nothing over the limit does.
use client_api.Prelude.{
  Bytes, ℕ, zero, suc, ap, inl, inr, List, [], ◌∷◌, ◌≤◌, ◌≡◌, true, false, ◌&&◌, Option, some,
  length, ltb, take, take-whole, ok, Check, arith, >>=-eq-ok, >>-eq-ok, reject-eq-ok, if-cases,
}
use client_api.External.{External}
use client_api.Errors.{Error, body_too_large}
use client_api.Codec.{Source, read_limited, decode_strict, decode_validated, marshal_validated}

take-fits : {A : Type 0} (n : ℕ) (xs : List A) → length (take (suc n) xs) ≤ n → length xs ≤ n
unfolding take
take-fits n [] h = omega arith
take-fits zero (x ∷ xs) h = omega (arith, h)
take-fits (suc n) (x ∷ xs) h = omega (arith, take-fits n xs (omega (arith, h)))

module _ ⦃x : External⦄ {A : Type 0} (marshal : A → Option Bytes)
    (decode : Bytes → Option (A × Bytes)) (validate : A → Check Error) (limit : ℕ) where
  -- A value that marshals within the limit decodes to itself from any reader that delivers the text
  -- and ends, if JSON keeps the value.
  pub marshal-decode_validated :
      (a : A) (raw rest : Bytes)
      → marshal_validated marshal validate a ≡ ok raw
      → decode raw ≡ some (a, rest)
      → x.at_eof rest ≡ true
      → length raw ≤ limit
      → decode_validated decode limit validate (some (record { content = raw; fails = false }))
        ≡ ok a
  unfolding marshal_validated decode_validated decode_strict read_limited
  marshal-decode_validated a raw rest h kept eof fits =
      let (valid, _) = >>-eq-ok (validate a) _ h in
      let small : ltb limit (length raw) ≡ false = ground (arith, fits) in
      simp (take-whole (suc limit) raw (omega (arith, fits)), small, kept, eof, valid)

  -- A value that is decoded is valid, and its text was no longer than the limit.
  pub decode_validated-fits :
      (source : Source) (a : A)
      → decode_validated decode limit validate (some source) ≡ ok a
      → (validate a ≡ ok tt) × (length source.content ≤ limit)
  unfolding decode_validated decode_strict read_limited
  decode_validated-fits source a h =
      let (b, h1, h2) = >>=-eq-ok (decode_strict decode (some source) limit) _ h in
      let (raw, r1, r2) = >>=-eq-ok (read_limited (suc limit) source) _ h1 in
      let (small, _) = reject-eq-ok (ltb limit (length raw)) body_too_large _ r2 in
      let (valid, same) = >>-eq-ok (validate b) _ h2 in
      elim (if-cases (source.fails && ltb (length source.content) (suc limit)) _ _ r1) [
        | inl (_, e) ↦ cc
        | inr (_, e) ↦
            let p : take (suc limit) source.content ≡ raw = cc e in
            let q : b ≡ a = cc same in
            let fits = ap length p in
            (rw (← q) valid, take-fits limit source.content (ground (arith, fits, small)))
      ]
