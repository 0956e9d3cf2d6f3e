-- ===== src/Web/Supplies.antt =====
-- The editor of consumption rules, apps/web/components/supplies/consumption-rules-editor.tsx, and the
-- dialog that adjusts stock, apps/web/components/supplies/adjust-stock-dialog.tsx. Numbers and texts are
-- the runtime's: `whole` is `Number(text)` where that is a whole number, `decimal` is `String(n)`,
-- `two_decimals` is `Number(text).toFixed(2)`, `rounded` is `Math.round(Number(text))`, and `stringify`
-- is `JSON.stringify` of the drafts' rows.
pub mod Saved
mod Tests
use Prim.Native.String.{◌++◌ as join}
use ironman.Prelude.{
  ◌≡◌, ℕ, zero, suc, ◌+◌, ltb, String, Bool, true, false, not, ◌&&◌, Option, none, some, List, [],
  ◌∷◌, ◌++◌, map, filter, any, includes, if◌then◌else◌, ◌==◌, ℤ, pos, negsuc, negated,
}
use ironman.Booking.{trim}

abbrev pub any_garment : String
any_garment = "any"

pub record ConsumptionRule : Type 0 where
  pub id : String
  pub service : String
  pub garment_type : Option String
  pub stock_item : String
  pub qty_per_unit : String

pub record Draft : Type 0 where
  pub key : String
  pub service : String
  pub garment_type : String
  pub stock_item : String
  pub qty : String

-- What `handleSave` sends of a draft.
pub record RuleInput : Type 0 where
  pub service : String
  pub garment_type : Option String
  pub stock_item : String
  pub qty_per_unit : String

-- `rule.garment_type ?? ANY_GARMENT`, and back.
abbrev pub or_any : Option String → String
or_any none = any_garment
or_any (some g) = g

unfoldable pub unless_any : String → Option String
unless_any g = if g == any_garment then none else some g

-- `identity`.
unfoldable pub identity : Draft → String
identity d = join d.service (join "|" (join d.garment_type (join "|" d.stock_item)))

-- The loop of `duplicate`, with the set `seen`.
unfoldable pub repeats : List String → List Draft → Bool
unfolding identity
repeats seen [] = false
repeats seen (d ∷ drafts) =
    let rest = repeats (identity d ∷ seen) drafts in
    if includes seen (identity d) then true else rest

abbrev pub all_drafts : (Draft → Bool) → List Draft → Bool
all_drafts p [] = true
all_drafts p (d ∷ drafts) = p d && all_drafts p drafts

-- A patch of a draft, `{ ...d, ...patch }`; choosing a service takes the garment back.
pub data Patch : Type 0 where
  set_service set_garment set_item set_qty : String → Patch

unfoldable pub patched : Patch → Draft → Draft
patched (set_service s) d = record d { service = s; garment_type = any_garment }
patched (set_garment g) d = record d { garment_type = g }
patched (set_item i) d = record d { stock_item = i }
patched (set_qty q) d = record d { qty = q }

-- `update`.
unfoldable pub update_draft : String → Patch → List Draft → List Draft
unfolding patched
update_draft key patch drafts = map (λ d. if d.key == key then patched patch d else d) drafts

abbrev pub or_no_id : Option String → String
or_no_id none = ""
or_no_id (some s) = s

-- `addRule`, with the next key and the first service and active item there are.
unfoldable pub add_rule : String → Option String → Option String → List Draft → List Draft
add_rule key service item drafts =
    drafts
    ++ record {
      key = key;
      service = or_no_id service;
      garment_type = any_garment;
      stock_item = or_no_id item;
      qty = "1";
    }
      ∷ []

-- The button that takes a draft out.
unfoldable pub remove_rule : String → List Draft → List Draft
remove_rule key drafts = filter (λ d. not (d.key == key)) drafts

-- `n >= 1`, of a whole number.
abbrev pub at_least_one : Option ℤ → Bool
at_least_one none = false
at_least_one (some (negsuc n)) = false
at_least_one (some (pos n)) = ltb 0 n

-- `KIND_SIGN`; `none` is a correction, which keeps the sign of what is typed.
pub data AdjustmentKind : Type 0 where
  issue wastage return adjustment : AdjustmentKind

abbrev pub is_outgoing : AdjustmentKind → Option Bool
is_outgoing issue = some true
is_outgoing wastage = some true
is_outgoing return = some false
is_outgoing adjustment = none

pub record Adjustment : Type 0 where
  pub item : String
  pub kind : AdjustmentKind
  pub qty : String
  pub note : String

abbrev pub times_minus_one : ℤ → ℤ
times_minus_one (pos n) = negated n
times_minus_one (negsuc n) = pos (suc n)

-- `sign === null ? qtyNum : sign * qtyNum`.
abbrev pub signed : Option Bool → ℤ → ℤ
signed (some true) n = times_minus_one n
signed _ n = n

pub record AdjustInput : Type 0 where
  pub item : String
  pub delta : ℤ
  pub kind : AdjustmentKind
  pub note : String

-- A press of the dialog's button: nothing is sent of an entry that is not valid.
abbrev pub adjust_input : Adjustment → Option ℤ → Option AdjustInput
adjust_input a none = none
adjust_input a (some n) =
    if not (a.item == "") && at_least_one (some n)
    then some (record {
      item = a.item;
      delta = signed (is_outgoing a.kind) n;
      kind = a.kind;
      note = trim a.note;
    })
    else none

module _ (whole : String → Option ℤ) where
  unfoldable pub is_complete : Draft → Bool
  is_complete d = not (d.service == "") && not (d.stock_item == "") && at_least_one (whole d.qty)

  unfoldable pub press_adjust : Adjustment → Option AdjustInput
  press_adjust a = adjust_input a (whole a.qty)

module _ (decimal : ℤ → String) (rounded : String → ℤ) where
  unfoldable pub from_rule : ConsumptionRule → Draft
  from_rule r = record {
    key = r.id;
    service = r.service;
    garment_type = or_any r.garment_type;
    stock_item = r.stock_item;
    qty = decimal (rounded r.qty_per_unit);
  }

module _ (two_decimals : String → String) where
  unfoldable pub to_input : Draft → RuleInput
  unfolding unless_any
  to_input d = record {
    service = d.service;
    garment_type = unless_any d.garment_type;
    stock_item = d.stock_item;
    qty_per_unit = two_decimals d.qty;
  }

module _ (stringify : List (List String) → String) where
  unfoldable pub signature : List Draft → String
  signature drafts =
      stringify (map (λ d. d.service ∷ d.garment_type ∷ d.stock_item ∷ d.qty ∷ []) drafts)

-- The editor: what is on the screen, and the signature of what was loaded.
pub record Editor : Type 0 where
  pub drafts : List Draft
  pub baseline : String

module _ (whole : String → Option ℤ) (stringify : List (List String) → String)
    (two_decimals : String → String) where
  unfoldable pub can_save : Editor → Bool
  unfolding signature repeats is_complete
  can_save e =
      not (signature stringify e.drafts == e.baseline)
      && not (repeats [] e.drafts)
      && all_drafts (is_complete whole) e.drafts

  -- A press of the button that saves, which is shown where there is a draft.
  unfoldable pub press_save : Editor → Option (List RuleInput)
  press_save e =
      let inputs = map (to_input two_decimals) e.drafts in
      if any (λ d. true) e.drafts && can_save e then some inputs else none

-- The effect that runs when the rules are there.
module _ (decimal : ℤ → String) (rounded : String → ℤ)
    (stringify : List (List String) → String) where
  unfoldable pub loaded : List ConsumptionRule → Editor
  unfolding from_rule signature
  loaded rules =
      let drafts = map (from_rule decimal rounded) rules in
      record { drafts = drafts; baseline = signature stringify drafts }
