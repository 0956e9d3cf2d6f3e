-- ===== src/Field/JobScreen.antt =====
-- The cards of a job's page, apps/field/app/job/[id].tsx, with the scanner of
-- apps/field/components/camera.tsx and apps/field/lib/bags.ts. Upper case is a parameter, times are in
-- milliseconds. A press of a button changes the card in one step; completing and reporting go through
-- the store like every tap.
pub mod Scanned
pub mod Counted
mod Tests
use Prim.Native.Char.{Char, code}
use Prim.Native.String.{◌++◌ as join}
use ironman.Prelude.{
  ◌≡◌, ℕ, zero, suc, ◌+◌, ◌-◌, max, String, Bool, true, false, not, ◌&&◌, ◌||◌, Option, none, some,
  List, [], ◌∷◌, ◌++◌, map, any, filter, length, includes, leb, ltb, nat_eq, if◌then◌else◌, ◌==◌,
}
use ironman.Booking.{Counts, assign, trim, between}
use ironman.Field.Types.{JobKind, pickup, delivery, JobLine, JobCard, DeclaredLine}
use ironman.Exec.{Exec, ok}
use ironman.Field.Sync.{Env, Run}
use ironman.Field.Engine.{Completion, complete, fail}

-- `[0-9A-F]`.
abbrev pub is_hex : Char → Bool
is_hex c = between 48 57 (code c) || between 65 70 (code c)

-- `[0-9A-F]{n}`, the whole of a text.
unfoldable pub is_hex_text : ℕ → String → Bool
is_hex_text n String.[] = nat_eq n 0
is_hex_text zero (String.◌∷◌ c s) = false
is_hex_text (suc n) (String.◌∷◌ c s) = is_hex c && is_hex_text n s

-- A prefix, and the pattern that the rest has.
unfoldable pub begins : String → (String → Bool) → String → Bool
begins String.[] pattern s = pattern s
begins (String.◌∷◌ c p) pattern String.[] = false
begins (String.◌∷◌ c p) pattern (String.◌∷◌ d s) = nat_eq (code c) (code d) && begins p pattern s

-- `BAG_CODE`.
unfoldable pub is_bag_code : String → Bool
unfolding begins is_hex_text
is_bag_code s = begins "BAG-" (is_hex_text 10) s

-- The state of `Completion`, and in the last three fields that of its `BagScanner`.
pub record CompletionCard : Type 0 where
  pub counts : Counts
  pub codes : List String
  pub typed : String
  pub typed_error : Option String
  pub scanning : Bool
  pub message : Option String
  pub last_code : String
  pub last_at : ℕ

-- `Object.fromEntries(job.lines.map(...))`, into what is there.
unfoldable pub from_entries : Counts → List JobLine → Counts
from_entries counts [] = counts
from_entries counts (l ∷ lines) = from_entries (assign l.garment_type l.declared_qty counts) lines

unfoldable pub opened_card : JobCard → CompletionCard
unfolding from_entries
opened_card job = record {
  counts = from_entries [] job.lines;
  codes = [];
  typed = "";
  typed_error = none;
  scanning = false;
  message = none;
  last_code = "";
  last_at = 0;
}

abbrev pub is_delivery : JobKind → Bool
is_delivery pickup = false
is_delivery delivery = true

-- `Math.max(job.bag_count, 1)`.
abbrev pub needed : JobCard → ℕ
needed job = max job.bag_count 1

unfoldable pub is_ready : JobCard → CompletionCard → Bool
is_ready job c = not (is_delivery job.kind) || leb (needed job) (length c.codes)

-- `counts[garment] ?? 0`.
unfoldable pub quantity : String → Counts → ℕ
quantity g [] = 0
quantity g (c ∷ counts) = let rest = quantity g counts in if c.0 == g then c.1 else rest

-- `all.includes(code) ? all : [...all, code]`.
unfoldable pub on_code : String → List String → List String
on_code tag all = if includes all tag then all else all ++ tag ∷ []

abbrev pub add_parsed : Option String → CompletionCard → CompletionCard
add_parsed none c = record c { typed_error = some "Bag codes look like BAG-1A2B3C4D5E." }
add_parsed (some tag) c =
    if includes c.codes tag
    then record c { typed_error = some (join tag " is already added.") }
    else record c { codes = c.codes ++ tag ∷ []; typed = ""; typed_error = none }

abbrev pub show_scan : Option String → CompletionCard → CompletionCard
show_scan none c = record c { message = some "That isn't an IronMan bag tag." }
show_scan (some tag) c =
    if includes c.codes tag
    then record c { message = some (join tag " is already scanned.") }
    else record c { message = some (join "Scanned " tag); codes = on_code tag c.codes }

-- What the rider does: typing and adding a code, taking one off, the camera's reports with their times,
-- and the buttons of the quantities.
pub data CardAct : Type 0 where
  type_code : String → CardAct
  add_typed open_scanner close_scanner : CardAct
  tap_code fewer more : String → CardAct
  report : ℕ → String → CardAct

abbrev pub has_line : String → List JobLine → Bool
has_line g lines = any (λ (l : JobLine). l.garment_type == g) lines

-- The buttons that are shown and not disabled.
unfoldable pub is_usable : JobCard → CompletionCard → CardAct → Bool
is_usable job c (fewer g) =
    not (is_delivery job.kind) && has_line g job.lines && not (nat_eq (quantity g c.counts) 0)
is_usable job c (more g) =
    not (is_delivery job.kind) && has_line g job.lines && ltb (quantity g c.counts) 50
is_usable job c (report now raw) = is_delivery job.kind && c.scanning
is_usable job c (tap_code tag) = is_delivery job.kind && includes c.codes tag
is_usable job c _ = is_delivery job.kind

-- `Object.entries(counts).map(...)`.
abbrev pub declared : Counts → List DeclaredLine
declared counts = map (λ c. record { garment_type = c.0; qty = c.1 }) counts

abbrev pub completion_of : JobKind → CompletionCard → Completion
completion_of pickup c = record { declared_lines = some (declared c.counts); bag_codes = none }
completion_of delivery c = record { declared_lines = none; bag_codes = some c.codes }

module _ {W : Type 0} (env : Env W) where
  -- A press of "Complete".
  unfoldable pub press_complete : JobCard → CompletionCard → Exec (Run W) (Unit {0})
  press_complete job c r =
      let done = complete env job (completion_of job.kind c) r in
      if is_ready job c then done else (ok tt, r)

  -- A press of "Report problem".
  abbrev pub press_report : JobCard → String → String → Exec (Run W) (Unit {0})
  press_report job reason note = fail env job reason (trim note)

module _ (upper : String → String) where
  unfoldable pub parse_bag_code : String → Option String
  parse_bag_code input = let tag = upper (trim input) in if is_bag_code tag then some tag else none

  -- `handle_scan`: a tag that the camera reports again within two seconds is passed over.
  unfoldable pub handle_scan : ℕ → String → CompletionCard → CompletionCard
  unfolding on_code
  handle_scan now raw c =
      if raw == c.last_code && ltb now (c.last_at + 2000)
      then c
      else show_scan (parse_bag_code raw) (record c { last_code = raw; last_at = now })

  unfoldable pub card_step : CompletionCard → CardAct → CompletionCard
  unfolding assign
  card_step c (type_code text) = record c { typed = text; typed_error = none }
  card_step c add_typed = add_parsed (parse_bag_code c.typed) c
  card_step c open_scanner = record c { scanning = true }
  card_step c close_scanner = record c { scanning = false }
  card_step c (tap_code tag) = record c { codes = filter (λ x. not (x == tag)) c.codes }
  card_step c (fewer g) = record c { counts = assign g (quantity g c.counts - 1) c.counts }
  card_step c (more g) = record c { counts = assign g (quantity g c.counts + 1) c.counts }
  card_step c (report now raw) = handle_scan now raw c

  -- What a card that was opened on a job can come to, with the job that the page shows now and all that
  -- it has shown since: the job can be refreshed under the card at any time, the counts and tags stay.
  pub data Handled (opened : JobCard) : JobCard → List JobCard → CompletionCard → Type 0 where
    open_card : Handled opened opened (opened ∷ []) (opened_card opened)
    refresh :
        {job : JobCard} {shown : List JobCard} {c : CompletionCard}
        → Handled opened job shown c
        → (fresh : JobCard) → fresh.id ≡ job.id
        → Handled opened fresh (fresh ∷ shown) c
    act :
        {job : JobCard} {shown : List JobCard} {c : CompletionCard}
        → Handled opened job shown c
        → (a : CardAct) → is_usable job c a ≡ true
        → Handled opened job shown (card_step c a)
