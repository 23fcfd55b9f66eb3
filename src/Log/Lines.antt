-- ===== src/Log/Lines.antt =====
-- The lines and the levels of log.cpp.
use p2p_ps_stun.Prelude.{
  ℕ, ◌+◌, ◌-◌, ◌≤◌, ◌≡◌, ◌∙◌, ap, refl, true, Bool-cases, inl, inr, some, List, [], ◌∷◌, ◌++◌,
  length, length-append, take, take-all, take-append, ltb, if◌then◌else◌, ltb→lt, lt→ltb, le→ltb,
  arith,
}
use p2p_ps_stun.Log.{
  Loglevel, rank, Call, call_debug, call_success, threshold, prints, log_format, write_message,
}

-- The line of a message, without its end.
abbrev pub line : List ℕ → List ℕ → List ℕ → List ℕ
line time level format = 124 ∷ time ++ 45 ∷ level ++ 124 ∷ 32 ∷ format

cut_end : (xs : List ℕ) (c : ℕ) → take (length (xs ++ c ∷ []) - 1) (xs ++ c ∷ []) ≡ xs
cut_end xs c =
    let n : length (xs ++ c ∷ []) - 1 ≡ length xs = omega (arith, length-append xs (c ∷ [])) in
    ap (λ n. take n (xs ++ c ∷ [])) n ∙ take-append xs (c ∷ [])

-- The two calls of `snprintf`, for a text that ends in `c`.
two_buffers :
    (xs : List ℕ) (c : ℕ)
    → (if ltb (length (xs ++ c ∷ [])) 1024
        then some (take 1023 (xs ++ c ∷ []))
        else some (take (length (xs ++ c ∷ []) - 1) (xs ++ c ∷ [])))
      ≡ (if ltb (length xs) 1023 then some (xs ++ c ∷ []) else some xs)
two_buffers xs c =
    let n : length (xs ++ c ∷ []) ≡ length xs + 1 = omega (arith, length-append xs (c ∷ [])) in
    elim (Bool-cases (ltb (length xs) 1023)) [
      | inl e ↦
          let few = ltb→lt (length xs) 1023 e in
          rw (e, lt→ltb (length (xs ++ c ∷ [])) 1024 (omega arith))
            (ap some (take-all 1023 (xs ++ c ∷ []) (omega arith)))
      | inr e ↦
          let many : 1024 ≤ length (xs ++ c ∷ []) = ground arith in
          rw (e, le→ltb (length (xs ++ c ∷ [])) 1024 many) (ap some (cut_end xs c))
    ]

-- A line with its end of less than 1024 bytes is printed whole. A longer one is printed without its
-- end of line, and with nothing else missing.
pub write_message_lem :
    (time level format : List ℕ)
    → write_message (some time) level format ≡ (
        if ltb (length (line time level format)) 1023
        then some (line time level format ++ 10 ∷ [])
        else some (line time level format))
unfolding write_message log_format
write_message_lem time level format = two_buffers (line time level format) 10

-- A level that is not above another lets through all that the other does.
prints-rank : (k l : Loglevel) (c : Call) → rank k ≤ rank l → prints l c ≡ true → prints k c ≡ true
unfolding prints threshold
prints-rank k l c h e = ground arith

-- The level `success` keeps the messages of `log_t::success` back, like those of `log_t::debug`.
success_with_debug : (l : Loglevel) → prints l call_success ≡ prints l call_debug
unfolding prints threshold
success_with_debug l = refl
