-- ===== src/Reader/Conformance.antt =====
-- The three copies of `split_response`, in crates/bolty-mfrc522, bolty-pn532 and bolty-pn7160.
use bolty_rs.Prelude.{
  ℕ, zero, suc, ◌+◌, ◌-◌, ◌≤◌, ◌<◌, ◌≡◌, refl, ap, ◌⊎◌, inl, inr, List, [], ◌∷◌, ◌++◌, ok, err, ltb,
  arith, length, take, get_or, Bool-cases,
}
use bolty_rs.Reader.Mfrc522.{Response}

-- What the list ends in is what is left of it after what comes before.
take-rejoin :
    (n : ℕ) (xs : List ℕ)
    → length xs ≡ n + 2
    → take n xs ++ (get_or xs n 0 ∷ get_or xs (n + 1) 0 ∷ []) ≡ xs
take-rejoin n [] e = absurd (omega arith)
take-rejoin n (x ∷ []) e = absurd (omega arith)
take-rejoin zero (x ∷ y ∷ []) e = refl
take-rejoin zero (x ∷ y ∷ z ∷ xs) e = absurd (omega arith)
take-rejoin (suc n) (x ∷ y ∷ xs) e =
    let next : suc n + 1 ≡ suc (n + 1) = omega arith in
    rw next (ap (λ t. x ∷ t) (take-rejoin n (y ∷ xs) (omega arith)))

-- The answer `r` to the bytes that came.
unfoldable pub IsSplit : List ℕ → Response → Type 0
IsSplit response r = r.bytes ++ (r.sw1 ∷ r.sw2 ∷ []) ≡ response

cut : List ℕ → Response
cut response = record {
  bytes = take (length response - 2) response;
  sw1 = get_or response (length response - 2) 0;
  sw2 = get_or response (length response - 2 + 1) 0;
}

cut-IsSplit : (response : List ℕ) → 2 ≤ length response → IsSplit response (cut response)
unfolding IsSplit cut
cut-IsSplit response h = take-rejoin (length response - 2) response (omega arith)

module _ (M A E : Type 0) where
  -- What the three answer to the bytes `response`.
  unfoldable pub AnswersAlike : List ℕ → Type 0
  AnswersAlike response =
      ((r : Response) × IsSplit response r
        × (bolty_rs.Reader.Mfrc522.split_response {M = M} {A = A} response ≡ ok r)
        × (bolty_rs.Reader.Pn532.Transport.split_response response ≡ ok r)
        × (bolty_rs.Reader.Pn7160.split_response {E = E} response ≡ ok r))
      ⊎ ((length response < 2)
          × (bolty_rs.Reader.Mfrc522.split_response {M = M} {A = A} response
              ≡ err (bolty_rs.Reader.Mfrc522.invalid_response_length (length response)))
          × (bolty_rs.Reader.Pn532.Transport.split_response response
              ≡ err (bolty_rs.Reader.Pn532.Transport.invalid_response_length (length response)))
          × (bolty_rs.Reader.Pn7160.split_response {E = E} response
              ≡ err (bolty_rs.Reader.Pn7160.invalid_response_length (length response))))

  -- The three answer any bytes alike: two or more are split into the bytes before the last two and
  -- those two as the status, which joined again are the bytes, and fewer are refused with their
  -- number.
  pub split_response-agree : (response : List ℕ) → AnswersAlike response
  unfolding AnswersAlike bolty_rs.Reader.Mfrc522.split_response
      bolty_rs.Reader.Pn532.Transport.split_response bolty_rs.Reader.Pn7160.split_response cut
  split_response-agree response = elim (Bool-cases (ltb (length response) 2)) [
    | inl h ↦ inr (ground (arith, h), rw h refl, rw h refl, rw h refl)
    | inr h ↦
        inl
          (cut response, cut-IsSplit response (ground (arith, h)), rw h refl, rw h refl, rw h refl)
  ]
