-- ===== src/Web/Hooks/Tests.antt =====
-- Concrete calls of the hooks, with a query library that compares the beginning of the key.
use ironman.Prelude.{
  ◌≡◌, refl, sym, ap, ◌∙◌, Bool, true, false, ◌&&◌, String, some, List, [], ◌∷◌, ◌++◌, ◌==◌, eq_iff,
  eq_refl, arith,
}
use ironman.Web.Hooks.{KeyPart, text, missing, params, Key}
use ironman.Web.Hooks.Orders.{OrderDetail, use_order_events}
use ironman.Web.Hooks.Fresh.{
  MatchesByPrefix, texts, refetches, cancelling, change_effects, history-refetches,
}

abbrev same_part : String → KeyPart → Bool
same_part a (text b) = a == b
same_part a _ = false

abbrev starts_key : List String → Key → Bool
starts_key [] key = true
starts_key (a ∷ filter) [] = false
starts_key (a ∷ filter) (part ∷ key) = same_part a part && starts_key filter key

same_part-text : (a : String) (part : KeyPart) → same_part a part ≡ true → part ≡ text a
same_part-text a (text b) e = ap text (sym ((eq_iff a b).0 e))
same_part-text a missing e = ground arith
same_part-text a (params ps) e = ground arith

starts_key-cut :
    (filter : List String) (key : Key)
    → starts_key filter key ≡ true
    → (rest : Key) × (key ≡ texts filter ++ rest)
starts_key-cut [] key e = (key, refl)
starts_key-cut (a ∷ filter) [] e = ground arith
starts_key-cut (a ∷ filter) (part ∷ key) e =
    let (rest, cut) = starts_key-cut filter key (ground (arith, e)) in
    (rest, rw (same_part-text a part (ground (arith, e))) (ap (λ k. text a ∷ k) cut))

starts_key-texts :
    (filter : List String) (rest : Key) → starts_key filter (texts filter ++ rest) ≡ true
starts_key-texts [] rest = refl
starts_key-texts (a ∷ filter) rest = ground (arith, eq_refl a, starts_key-texts filter rest)

starts_key-MatchesByPrefix : MatchesByPrefix starts_key
starts_key-MatchesByPrefix filter key = (
  starts_key-cut filter key,
  λ (rest, cut). ap (starts_key filter) cut ∙ starts_key-texts filter rest,
)

abbrev cancelled : OrderDetail
cancelled = record { id = "o1"; ref = "IM-1"; status = "CANCELLED" }

abbrev lower : String → String
lower s = s

history-refetches_example :
    refetches starts_key
      (change_effects lower (cancelling ("o1", "rain")) cancelled)
      (use_order_events (some "o1")).query_key
    ≡ false
history-refetches_example =
    history-refetches starts_key starts_key-MatchesByPrefix lower (cancelling ("o1", "rain"))
      cancelled
