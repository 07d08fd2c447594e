-- ===== src/Sink/Remote/ExactlyOnce.antt =====
-- The sinks' loop at a destination that ignores a repeated message.
use evm_tools.Base.{
  ℕ, suc, zero, ◌+◌, ◌≡◌, ◌≢◌, ◌⊎◌, inl, inr, refl, sym, ap, ◌∙◌, arith, List, [], ◌∷◌, ◌++◌,
  length, take, drop, Text,
}
use evm_tools.Record.Envelope.{Envelope}
use evm_tools.Sink.Loop.{World, Prepared, Input, Ended, all_delivered, run}
use evm_tools.Sink.Loop.Wanted.{messages, IsWhole}
use evm_tools.Sink.Loop.AtLeastOnce.{
  copies, Sent, nothing_sent, sent, sent_again, LeftNext, run_at_least_once,
}
use evm_tools.Sink.Remote.Contract.{
  Protocol, IsHonest, remote, put_all, put_all-append, remote_contract, any_inputs,
}

take_all : {A : Type 0} (n : ℕ) (xs : List A) → length xs ≡ n → take n xs ≡ xs
take_all zero [] h = refl
take_all zero (x ∷ xs) h = absurd (omega arith)
take_all (suc n) [] h = refl
take_all (suc n) (x ∷ xs) h = ap (λ l. x ∷ l) (take_all n xs (omega arith))

same_head : {A : Type 0} {x m : A} {xs rest : List A} → x ∷ xs ≡ m ∷ rest → x ≡ m
same_head e = cc e

module _ {S M : Type 0} (put : M → S → S) where
  -- A message that has just been put is not put again.
  abbrev pub IsIdempotent : Type 0
  IsIdempotent = (m : M) (s : S) → put m (put m s) ≡ put m s

  module _ (idempotent : IsIdempotent) where
    Sent-put_all : {ms log : List M} → Sent ms log → (s : S) → put_all put log s ≡ put_all put ms s
    Sent-put_all nothing_sent s = refl
    Sent-put_all (sent m ms log h) s = Sent-put_all h (put m s)
    Sent-put_all (sent_again m ms log h) s =
        Sent-put_all h (put m s) ∙ ap (λ x. put_all put ms x) (idempotent m s)

    copies_once :
        (k : ℕ) (m : M) (s : S)
        → (put_all put (copies k m) s ≡ s) ⊎ (put_all put (copies k m) s ≡ put m s)
    copies_once zero m s = inl refl
    copies_once (suc k) m s = elim (copies_once k m (put m s)) [
      | inl e ↦ inr e
      | inr e ↦ inr (e ∙ idempotent m s)
    ]

    -- The destination is as if the first `n` messages had each been delivered once, or the first
    -- `n + 1`.
    abbrev pub IsExact : Type 0 → List M → S → ℕ → Ended × World S → Type 0
    IsExact Whole ms first before r =
        (n : ℕ) × (r.1.meters.delivered ≡ before + n)
        × (((r.0 ≡ all_delivered) × Whole × (length ms ≡ n) × (r.1.dest ≡ put_all put ms first))
            ⊎ ((r.0 ≢ all_delivered)
                × ((r.1.dest ≡ put_all put (take n ms) first)
                    ⊎ (r.1.dest ≡ put_all put (take (suc n) ms) first))))

    one_more :
        (n : ℕ) (ms : List M) (m : M) (rest : List M) (s : S)
        → drop n ms ≡ m ∷ rest
        → put_all put (take (suc n) ms) s ≡ put m (put_all put (take n ms) s)
    one_more zero [] m rest s e = cc e
    one_more zero (x ∷ ms) m rest s e = ap (λ y. put y s) (same_head e)
    one_more (suc n) [] m rest s e = cc e
    one_more (suc n) (x ∷ ms) m rest s e = one_more n ms m rest (put x s) e

    abbrev LeftExact : List M → List M → S → S → Type 0
    LeftExact front [] first dest = dest ≡ put_all put front first
    LeftExact front (m ∷ rest) first dest =
        (k : ℕ) × (dest ≡ put_all put (front ++ copies k m) first)

    once_more :
        (first dest : S) (ms front : List M) (n : ℕ) (rest : List M)
        → drop n ms ≡ rest
        → put_all put front first ≡ put_all put (take n ms) first
        → LeftExact front rest first dest
        → (dest ≡ put_all put (take n ms) first) ⊎ (dest ≡ put_all put (take (suc n) ms) first)
    once_more first dest ms front n [] e same h = inl (h ∙ same)
    once_more first dest ms front n (m ∷ rest) e same (k, h) =
        let put_front = h ∙ put_all-append put front (copies k m) first in
        elim (copies_once k m (put_all put front first)) [
          | inl none ↦ inl (put_front ∙ none ∙ same)
          | inr once ↦
              inr (put_front ∙ once ∙ ap (λ x. put m x) same ∙ sym (one_more n ms m rest first e))
        ]

    module _ {D R : Type 0} (prepare : Envelope D → Text → Prepared M) (q : Protocol R)
        (honest : IsHonest q) where
      as_left :
          (base max_delay : ℕ) (first dest : S) (front rest : List M)
          → LeftNext (remote_contract put q base max_delay first honest) front rest dest
          → LeftExact front rest first dest
      unfolding remote_contract
      as_left base max_delay first dest front [] h = h
      as_left base max_delay first dest front (m ∷ rest) (k, inl h) = (k, h)
      as_left base max_delay first dest front (m ∷ rest) (k, inr h) = (k, h)

      -- Where a repeated message changes nothing, Run leaves the destination as if each of the
      -- messages that it has counted had been delivered exactly once, and nothing else but perhaps the
      -- next one, whatever the replies are, as long as what is confirmed was taken. At the end of the
      -- input no line and no record was refused, and every message of it is there once.
      pub run_exactly_once :
          (base max_delay : ℕ) (inputs : List (Input D R)) (w : World S)
          → IsExact
              (IsWhole prepare inputs)
              (messages prepare inputs)
              w.dest
              w.meters.delivered
              (run (remote put q base max_delay) prepare inputs w)
      unfolding remote_contract
      run_exactly_once base max_delay inputs w =
          let c = remote_contract put q base max_delay w.dest honest in
          let (n, front, counted, sent_front, left) =
            run_at_least_once c prepare inputs [] w (any_inputs inputs) refl in
          let ms = messages prepare inputs in
          let same = Sent-put_all sent_front w.dest in
          (
            n,
            counted,
            elim left [
              | inl (done, whole, sized, held) ↦ inl (
                done,
                whole,
                sized,
                held ∙ same ∙ ap (λ l. put_all put l w.dest) (take_all n ms sized),
              )
              | inr (early, next) ↦ inr (
                early,
                once_more w.dest _ ms front n (drop n ms) refl same
                    (as_left base max_delay w.dest _ front (drop n ms) next),
              )
            ],
          )
