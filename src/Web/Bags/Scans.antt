-- ===== src/Web/Bags/Scans.antt =====
-- The queue of the batch scan.
use ironman.Prelude.{
  ◌≡◌, refl, sym, ap, subst, ◌∙◌, inl, inr, String, Bool, true, false, not, Option, none, some,
  List, [], ◌∷◌, ◌++◌, map, Has, Distinct, snoc-Distinct, filter-Distinct, includes, Has-includes,
  if◌then◌else◌, arith, Bool-cases, ◌==◌,
}
use mathlib.Core.List.{append_assoc, append-nil}
use ironman.Booking.{trim}
use ironman.Web.Bags.{
  ScanAnswer, BatchRun, ScanCard, add_code, add_to_queue, remove_code, process_queue, or_keep,
  continue, answer_next, answer_scan, Reach, mount, type_code, choose, add, remove, press, answer,
}

abbrev pub code_of : ScanAnswer → String
code_of a = a.scan.code

-- The codes whose scans failed, in their order.
abbrev pub failed : List ScanAnswer → List String
failed [] = []
failed (a ∷ answers) = if a.ok then failed answers else code_of a ∷ failed answers

failed-Has :
    (c : String) (answers : List ScanAnswer) → Has c (failed answers) → Has c (map code_of answers)
failed-Has c [] has = has
failed-Has c (a ∷ answers) has = elim (Bool-cases a.ok) [
  | inl t ↦ inr (failed-Has c answers (rw t at has))
  | inr f ↦ elim (let h : Has c (code_of a ∷ failed answers) = (rw f at has) in h) [
    | inl e ↦ inl e
    | inr more ↦ inr (failed-Has c answers more)
  ]
]

failed-Distinct :
    (answers : List ScanAnswer) → Distinct (map code_of answers) → Distinct (failed answers)
failed-Distinct [] inv = inv
failed-Distinct (a ∷ answers) (once, inv) = elim (Bool-cases a.ok) [
  | inl t ↦ rw t (failed-Distinct answers inv)
  | inr f ↦ rw f (λ has. once (failed-Has (code_of a) answers has), failed-Distinct answers inv)
]

failed-snoc :
    (answers : List ScanAnswer) (a : ScanAnswer)
    → failed (answers ++ a ∷ []) ≡ or_keep a.ok (code_of a) (failed answers)
failed-snoc [] a = elim (Bool-cases a.ok) [ inl t ↦ rw t refl | inr f ↦ rw f refl ]
failed-snoc (b ∷ answers) a = elim (Bool-cases b.ok) [
  | inl t ↦ rw t (failed-snoc answers a)
  | inr f ↦ rw f (
      ap (◌∷◌ (code_of b)) (failed-snoc answers a)
      ∙ or_keep-cons a.ok (code_of a) (code_of b) (failed answers))
]
  where
    or_keep-cons :
        (ok : Bool) (c d : String) (xs : List String) → d ∷ or_keep ok c xs ≡ or_keep ok c (d ∷ xs)
    or_keep-cons true c d xs = refl
    or_keep-cons false c d xs = refl

pub map-snoc :
    (answers : List ScanAnswer) (a : ScanAnswer)
    → map code_of (answers ++ a ∷ []) ≡ map code_of answers ++ code_of a ∷ []
map-snoc [] a = refl
map-snoc (b ∷ answers) a = ap (◌∷◌ (code_of b)) (map-snoc answers a)

-- A run has asked for the codes of its queue one after another, each once, and keeps those that failed.
pub record IsInOrder (r : BatchRun) : Type 0 where
  pub asked : r.queue ≡ map code_of r.answered ++ r.todo
  pub kept : r.remaining ≡ failed r.answered
  pub once : Distinct r.queue

abbrev pub RunInOrder : Option BatchRun → Type 0
RunInOrder none = Unit
RunInOrder (some r) = IsInOrder r

-- No code is queued twice, and a run goes through its queue in order.
pub record IsOrderly (c : ScanCard) : Type 0 where
  pub distinct : Distinct c.queue
  pub running : RunInOrder c.run

add_code-Distinct :
    (c : ScanCard) (trimmed : String) → Distinct c.queue → Distinct (add_code c trimmed).queue
add_code-Distinct c trimmed inv = elim (Bool-cases (trimmed == "")) [
  | inl t ↦ rw t inv
  | inr f ↦ elim (Bool-cases (includes c.queue trimmed)) [
    | inl t ↦ rw f (rw t inv)
    | inr g ↦ rw f (
        rw g (
          snoc-Distinct trimmed c.queue (λ has. ground (arith, g, Has-includes c.queue trimmed has))
            inv))
  ]
]

pub add_code-run : (c : ScanCard) (trimmed : String) → (add_code c trimmed).run ≡ c.run
add_code-run c trimmed = elim (Bool-cases (trimmed == "")) [
  | inl t ↦ rw t refl
  | inr f ↦ elim (Bool-cases (includes c.queue trimmed)) [
    | inl t ↦ rw f (rw t refl)
    | inr g ↦ rw f (rw g refl)
  ]
]

-- A run after one more answer.
abbrev pub turned : BatchRun → String → List String → Bool → BatchRun
turned r code todo ok = record r {
  answered =
      r.answered ++ record { scan = record { code = code; to_stage = r.to_stage }; ok = ok } ∷ [];
  remaining = or_keep ok code r.remaining;
  todo = todo;
}

pub turned-IsInOrder :
    (r : BatchRun) (code : String) (todo : List String) (ok : Bool)
    → r.todo ≡ code ∷ todo
    → IsInOrder r
    → IsInOrder (turned r code todo ok)
turned-IsInOrder r code todo ok next inv =
    let a : ScanAnswer = record { scan = record { code = code; to_stage = r.to_stage }; ok = ok } in
    record {
      asked =
          inv.asked
          ∙ ap (◌++◌ (map code_of r.answered)) next
          ∙ sym (append_assoc (map code_of r.answered) (code ∷ []) todo)
          ∙ ap (λ (xs : List String). xs ++ todo) (sym (map-snoc r.answered a));
      kept = ap (or_keep ok code) inv.kept ∙ sym (failed-snoc r.answered a);
      once = inv.once;
    }

pub all_asked : (r : BatchRun) → r.todo ≡ [] → IsInOrder r → map code_of r.answered ≡ r.queue
all_asked r over inv =
    sym (inv.asked ∙ ap (◌++◌ (map code_of r.answered)) over ∙ append-nil (map code_of r.answered))

remaining-Distinct : (r : BatchRun) → r.todo ≡ [] → IsInOrder r → Distinct r.remaining
remaining-Distinct r over inv =
    rw inv.kept (failed-Distinct r.answered (rw (all_asked r over inv) inv.once))

continue-IsOrderly :
    (c : ScanCard) (r : BatchRun) (todo : List String)
    → r.todo ≡ todo
    → IsInOrder r
    → IsOrderly c
    → IsOrderly (continue c r todo)
continue-IsOrderly c r [] over inv orderly = record {
  distinct = remaining-Distinct r over inv;
  running = tt;
}
continue-IsOrderly c r (code ∷ todo) going inv orderly = record {
  distinct = orderly.distinct;
  running = inv;
}

answer_next-IsOrderly :
    (c : ScanCard) (r : BatchRun) (todo : List String) (ok : Bool)
    → r.todo ≡ todo
    → IsInOrder r
    → IsOrderly c
    → IsOrderly (answer_next c r todo ok)
answer_next-IsOrderly c r [] ok e inv orderly = orderly
answer_next-IsOrderly c r (code ∷ todo) ok e inv orderly =
    continue-IsOrderly c (turned r code todo ok) todo refl (turned-IsInOrder r code todo ok e inv)
      orderly

pub running-InOrder : (c : ScanCard) (r : BatchRun) → c.run ≡ some r → IsOrderly c → IsInOrder r
running-InOrder c r e orderly = subst RunInOrder e orderly.running

-- Whatever is typed, added, removed and answered, in any order: no code is queued twice, and the run that
-- is under way has scanned the first codes of its queue, each once, and keeps those that failed.
pub Reach-IsOrderly : {c : ScanCard} → Reach c → IsOrderly c
unfolding add_to_queue remove_code process_queue answer_scan
Reach-IsOrderly mount = record { distinct = tt; running = tt }
Reach-IsOrderly (type_code reach text) =
    let inv = Reach-IsOrderly reach in record { distinct = inv.distinct; running = inv.running }
Reach-IsOrderly (choose reach stage) =
    let inv = Reach-IsOrderly reach in record { distinct = inv.distinct; running = inv.running }
Reach-IsOrderly (add {c} reach) =
    let inv = Reach-IsOrderly reach in
    record {
      distinct = add_code-Distinct c (trim c.code) inv.distinct;
      running = subst RunInOrder (sym (add_code-run c (trim c.code))) inv.running;
    }
Reach-IsOrderly (remove {c} reach code) =
    let inv = Reach-IsOrderly reach in
    record {
      distinct = filter-Distinct (λ x. not (x == code)) c.queue inv.distinct;
      running = inv.running;
    }
Reach-IsOrderly (press reach idle some_codes) =
    let inv = Reach-IsOrderly reach in
    record {
      distinct = inv.distinct;
      running = record { asked = refl; kept = refl; once = inv.distinct };
    }
Reach-IsOrderly (answer {c} reach r e ok) =
    let inv = Reach-IsOrderly reach in
    answer_next-IsOrderly c r r.todo ok refl (running-InOrder c r e inv) inv
