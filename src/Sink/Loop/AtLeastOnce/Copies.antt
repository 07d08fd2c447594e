-- ===== src/Sink/Loop/AtLeastOnce/Copies.antt =====
-- Messages that are stored at least once and in order.
use evm_tools.Base.{
  ℕ, zero, suc, ◌+◌, ◌≡◌, ap, ◌∙◌, List, [], ◌∷◌, ◌++◌, append_assoc, zero-add, suc-add, add-suc,
  subst,
}

module _ {M : Type 0} where
  abbrev pub copies : ℕ → M → List M
  copies zero m = []
  copies (suc k) m = m ∷ copies k m

  -- Each message at least once, and one after the other.
  pub data Sent : List M → List M → Type 0 where
    nothing_sent : Sent [] []
    sent : (m : M) (ms log : List M) → Sent ms log → Sent (m ∷ ms) (m ∷ log)
    sent_again : (m : M) (ms log : List M) → Sent (m ∷ ms) log → Sent (m ∷ ms) (m ∷ log)

  pub copies-Sent :
      (k : ℕ) (m : M) (ms log : List M) → Sent ms log → Sent (m ∷ ms) (copies (suc k) m ++ log)
  copies-Sent zero m ms log h = sent m ms log h
  copies-Sent (suc k) m ms log h =
      sent_again m ms (copies (suc k) m ++ log) (copies-Sent k m ms log h)

  copies_add : (k j : ℕ) (m : M) → copies k m ++ copies j m ≡ copies (k + j) m
  copies_add zero j m = rw zero-add
  copies_add (suc k) j m = rw (suc-add, copies_add k j m)

  pub copies-append :
      (k j : ℕ) (m : M) (l : List M) → (l ++ copies k m) ++ copies j m ≡ l ++ copies (k + j) m
  copies-append k j m l =
      append_assoc l (copies k m) (copies j m) ∙ ap (λ x. l ++ x) (copies_add k j m)

  pub copies-append_suc :
      (k j : ℕ) (m : M) (l : List M)
      → (l ++ copies k m) ++ copies (suc j) m ≡ l ++ copies (suc (k + j)) m
  copies-append_suc k j m l =
      subst (λ i. (l ++ copies k m) ++ copies (suc j) m ≡ l ++ copies i m) (add-suc k j)
        (copies-append k (suc j) m l)
