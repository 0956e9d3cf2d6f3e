-- ===== src/Web/Bags/Runs.antt =====
-- A batch of scans from the press of its button to its end.
use ironman.Prelude.{
  ◌≡◌, ◌≢◌, refl, sym, ap, subst, ◌∙◌, inl, inr, String, Bool, Option, none, some, List, [], ◌∷◌,
  ◌++◌, map, Bool-cases, if◌then◌else◌,
}
use ironman.Web.Bags.{
  GarmentStage, Scan, ScanAnswer, BatchRun, ScanCard, add_to_queue, remove_code, process_queue,
  answer_next, answer_scan, Reach, type_code, choose, add, remove, press, answer,
}
use ironman.Booking.{trim}
use ironman.Web.Bags.Scans.{
  code_of, failed, Reach-IsOrderly, turned, turned-IsInOrder, all_asked, running-InOrder,
  add_code-run,
}

-- The card since the button was pressed on `c0`, with the answers that came, in their order.
pub data Since (c0 : ScanCard) : List Bool → ScanCard → Type 0 where
  pressed : c0.run ≡ none → c0.queue ≢ [] → Since c0 [] (process_queue c0)
  typed :
      {oks : List Bool} {c : ScanCard}
      → Since c0 oks c
      → (text : String) → Since c0 oks (record c { code = text })
  chose :
      {oks : List Bool} {c : ScanCard}
      → Since c0 oks c
      → (stage : GarmentStage) → Since c0 oks (record c { to_stage = stage })
  added : {oks : List Bool} {c : ScanCard} → Since c0 oks c → Since c0 oks (add_to_queue c)
  removed :
      {oks : List Bool} {c : ScanCard}
      → Since c0 oks c
      → (code : String) → Since c0 oks (remove_code code c)
  answered :
      {oks : List Bool} {c : ScanCard}
      → Since c0 oks c
      → (r : BatchRun) → c.run ≡ some r
      → (ok : Bool) → Since c0 (oks ++ ok ∷ []) (answer_scan c r ok)

-- The codes whose answer is a failure, and those with no answer.
abbrev pub unserved : List String → List Bool → List String
unserved [] oks = []
unserved (code ∷ codes) [] = code ∷ codes
unserved (code ∷ codes) (ok ∷ oks) = if ok then unserved codes oks else code ∷ unserved codes oks

abbrev pub scan_at : GarmentStage → String → Scan
scan_at stage code = record { code = code; to_stage = stage }

failed-unserved :
    (answers : List ScanAnswer)
    → failed answers ≡ unserved (map code_of answers) (map ScanAnswer.ok answers)
failed-unserved [] = refl
failed-unserved (a ∷ answers) = elim (Bool-cases a.ok) [
  | inl t ↦ rw t (failed-unserved answers)
  | inr f ↦ rw f (ap (◌∷◌ (code_of a)) (failed-unserved answers))
]

map-append_one :
    {A B : Type 0} (f : A → B) (xs : List A) (x : A) → map f (xs ++ x ∷ []) ≡ map f xs ++ f x ∷ []
map-append_one f [] x = refl
map-append_one f (y ∷ xs) x = ap (◌∷◌ (f y)) (map-append_one f xs x)

-- The run under way is the one that was started, and it has had these answers.
pub record IsRunOf (c0 : ScanCard) (oks : List Bool) (r : BatchRun) : Type 0 where
  pub queue_of : r.queue ≡ c0.queue
  pub stage_of : r.to_stage ≡ c0.to_stage
  pub told : map ScanAnswer.ok r.answered ≡ oks
  pub scans : map ScanAnswer.scan r.answered ≡ map (scan_at c0.to_stage) (map code_of r.answered)

abbrev RunOf : ScanCard → List Bool → Option BatchRun → Type 0
RunOf c0 oks none = Unit
RunOf c0 oks (some r) = (r.todo ≢ []) × IsRunOf c0 oks r

turned-IsRunOf :
    (c0 : ScanCard) (oks : List Bool) (r : BatchRun) (code : String) (todo : List String)
    (ok : Bool)
    → IsRunOf c0 oks r
    → IsRunOf c0 (oks ++ ok ∷ []) (turned r code todo ok)
turned-IsRunOf c0 oks r code todo ok inv =
    let a : ScanAnswer = record { scan = record { code = code; to_stage = r.to_stage }; ok = ok } in
    record {
      queue_of = inv.queue_of;
      stage_of = inv.stage_of;
      told = map-append_one ScanAnswer.ok r.answered a ∙ ap (λ xs. xs ++ ok ∷ []) inv.told;
      scans =
          map-append_one ScanAnswer.scan r.answered a
          ∙ ap (λ xs. xs ++ a.scan ∷ []) inv.scans
          ∙ ap
              (λ stage.
                map (scan_at c0.to_stage) (map code_of r.answered) ++ scan_at stage code ∷ [])
              inv.stage_of
          ∙ sym (map-append_one (scan_at c0.to_stage) (map code_of r.answered) code)
          ∙ ap (map (scan_at c0.to_stage)) (sym (map-append_one code_of r.answered a));
    }

answer_next-RunOf :
    (c0 : ScanCard) (oks : List Bool) (c : ScanCard) (r : BatchRun) (todo : List String) (ok : Bool)
    → todo ≢ []
    → IsRunOf c0 oks r
    → RunOf c0 (oks ++ ok ∷ []) (answer_next c r todo ok).run
answer_next-RunOf c0 oks c r [] ok going inv = absurd (going refl)
answer_next-RunOf c0 oks c r (code ∷ []) ok going inv = tt
answer_next-RunOf c0 oks c r (code ∷ next ∷ todo) ok going inv =
    ((λ e. cc), turned-IsRunOf c0 oks r code (next ∷ todo) ok inv)

run_of :
    (c0 : ScanCard) (oks : List Bool) (run : Option BatchRun) (r : BatchRun)
    → run ≡ some r
    → RunOf c0 oks run
    → (r.todo ≢ []) × IsRunOf c0 oks r
run_of c0 oks run r e held = subst (RunOf c0 oks) e held

Since-RunOf : {c0 : ScanCard} {oks : List Bool} {c : ScanCard} → Since c0 oks c → RunOf c0 oks c.run
unfolding process_queue add_to_queue remove_code answer_scan
Since-RunOf (pressed idle some_codes) =
    (some_codes, record { queue_of = refl; stage_of = refl; told = refl; scans = refl })
Since-RunOf (typed since text) = Since-RunOf since
Since-RunOf (chose since stage) = Since-RunOf since
Since-RunOf {c0 = c0} {oks = oks} (added {c = c} since) =
    subst (RunOf c0 oks) (sym (add_code-run c (trim c.code))) (Since-RunOf since)
Since-RunOf (removed since code) = Since-RunOf since
Since-RunOf {c0 = c0} (answered {oks = oks} {c = c} since r e ok) =
    let (going, inv) = run_of c0 oks c.run r e (Since-RunOf since) in
    answer_next-RunOf c0 oks c r r.todo ok going inv

Since-Reach : {c0 : ScanCard} {oks : List Bool} {c : ScanCard} → Since c0 oks c → Reach c0 → Reach c
Since-Reach (pressed idle some_codes) reach = press reach idle some_codes
Since-Reach (typed since text) reach = type_code (Since-Reach since reach) text
Since-Reach (chose since stage) reach = choose (Since-Reach since reach) stage
Since-Reach (added since) reach = add (Since-Reach since reach)
Since-Reach (removed since code) reach = remove (Since-Reach since reach) code
Since-Reach (answered since r e ok) reach = answer (Since-Reach since reach) r e ok

-- A run that is started on a card ends with the answer to its last scan. Its scans are then those of the
-- codes that were queued on that card, each once and in that order, to the stage that was chosen on it;
-- and the queue becomes those of these codes whose answer was a failure, in that order, whatever was
-- typed, chosen, added and taken off in between.
pub run_end :
    {c0 c : ScanCard} {oks : List Bool} (r : BatchRun) (code : String) (ok : Bool)
    → Reach c0
    → Since c0 oks c
    → c.run ≡ some r
    → r.todo ≡ code ∷ []
    → (map ScanAnswer.scan r.answered ++ scan_at r.to_stage code ∷ []
        ≡ map (scan_at c0.to_stage) c0.queue)
      × ((answer_scan c r ok).queue ≡ unserved c0.queue (oks ++ ok ∷ []))
      × ((answer_scan c r ok).run ≡ none)
unfolding answer_scan
run_end {c0} {c} {oks} r code ok reach since e last =
    let inv = running-InOrder c r e (Reach-IsOrderly (Since-Reach since reach)) in
    let done = turned-IsInOrder r code [] ok last inv in
    let of_run =
      turned-IsRunOf c0 oks r code [] ok (run_of c0 oks c.run r e (Since-RunOf since)).1 in
    let codes = all_asked (turned r code [] ok) refl done ∙ of_run.queue_of in
    let a : ScanAnswer = record { scan = scan_at r.to_stage code; ok = ok } in
    rw last (
      sym (map-append_one ScanAnswer.scan r.answered a)
          ∙ of_run.scans
          ∙ ap (map (scan_at c0.to_stage)) codes,
      done.kept
          ∙ failed-unserved (turned r code [] ok).answered
          ∙ ap (λ xs. unserved xs (map ScanAnswer.ok (turned r code [] ok).answered)) codes
          ∙ ap (unserved c0.queue) of_run.told,
      refl,
    )
