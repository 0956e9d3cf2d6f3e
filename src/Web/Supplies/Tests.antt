-- ===== src/Web/Supplies/Tests.antt =====
-- Two rules of one service, of which the second is changed.
use ironman.Prelude.{
  ◌≡◌, refl, String, Option, none, some, List, [], ◌∷◌, map, All, ℤ, pos, negsuc, nat_eq, ◌==◌,
  if◌then◌else◌,
}
use ironman.Web.Supplies.{
  ConsumptionRule, RuleInput, identity, repeats, unless_any, set_qty, patched, update_draft,
  remove_rule, is_complete, from_rule, to_input, signature, Editor, can_save, press_save, loaded,
}
use ironman.Web.Supplies.Saved.{IsGood, NoTwins, press_save_exact}

-- A runtime that knows two numbers.
abbrev one_or_two : String → Option ℤ
one_or_two s = if s == "1" then some (pos 1) else if s == "2" then some (pos 2) else none

abbrev with_zeros : String → String
with_zeros s = if s == "1" then "1.00" else "2.00"

abbrev written : ℤ → String
written (pos n) = if nat_eq n 1 then "1" else "2"
written (negsuc n) = "?"

abbrev read_back : String → ℤ
read_back s = if s == "1.00" then pos 1 else pos 2

abbrev quantities : List (List String) → String
quantities [] = ""
quantities ((s ∷ g ∷ i ∷ q ∷ []) ∷ rows) = q
quantities (row ∷ rows) = "?"

abbrev rules : List ConsumptionRule
rules =
    record {
      id = "r1";
      service = "iron";
      garment_type = none;
      stock_item = "cover";
      qty_per_unit = "1.00";
    }
    ∷ record {
      id = "r2";
      service = "iron";
      garment_type = some "shirt";
      stock_item = "hanger";
      qty_per_unit = "1.00";
    }
    ∷ []

abbrev untouched : Editor
untouched = loaded written read_back quantities rules

abbrev changed : Editor
changed = record untouched { drafts = update_draft "r1" (set_qty "2") untouched.drafts }

abbrev sent : List RuleInput
sent =
    record { service = "iron"; garment_type = none; stock_item = "cover"; qty_per_unit = "2.00" }
    ∷ record {
      service = "iron";
      garment_type = some "shirt";
      stock_item = "hanger";
      qty_per_unit = "1.00";
    }
    ∷ []

changed_sent : press_save one_or_two quantities with_zeros changed ≡ some sent
unfolding press_save can_save loaded from_rule signature repeats identity is_complete to_input
    unless_any update_draft patched
changed_sent = refl

press_save_exact_example :
    (sent ≡ map (to_input with_zeros) changed.drafts)
    × All (IsGood one_or_two) changed.drafts
    × NoTwins sent
press_save_exact_example =
    press_save_exact one_or_two quantities with_zeros changed sent changed_sent

-- With the last rule taken out nothing can be saved.
none_saved :
    press_save one_or_two quantities with_zeros
      (record untouched { drafts = remove_rule "r2" (remove_rule "r1" untouched.drafts) })
    ≡ none
unfolding press_save loaded from_rule remove_rule
none_saved = refl
