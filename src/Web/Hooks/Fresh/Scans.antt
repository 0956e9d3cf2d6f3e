-- ===== src/Web/Hooks/Fresh/Scans.antt =====
-- What the two hooks that scan a bag say.
use ironman.Prelude.{
  List, ◌≡◌, refl, ◌<◌, ◌↔◌, ℕ, String, Bool, true, false, ltb, [], ◌∷◌, arith, Bool-cases, inl,
  inr,
}
use ironman.Web.Hooks.{Toast, warning, Effect, invalidate, toast}
use ironman.Web.Hooks.Custody.{ScanResult, use_scan_bag, use_board_scan, scan_toast}

-- The messages of a callback.
abbrev pub toasts_of : List Effect → List Toast
toasts_of [] = []
toasts_of (invalidate filter ∷ es) = toasts_of es
toasts_of (toast t ∷ es) = t ∷ toasts_of es

abbrev pub is_warning : Toast → Bool
is_warning (warning s) = true
is_warning _ = false

module _ (number_text : ℕ → String) (lower : String → String) (order : String) where
  scan_toast-is_warning :
      (result : ScanResult)
      → is_warning (scan_toast number_text lower result) ≡ ltb 0 result.skipped_count
  scan_toast-is_warning result = elim (Bool-cases (ltb 0 result.skipped_count)) [
    | inl e ↦ rw e refl
    | inr e ↦ rw e refl
  ]

  -- On the page of an order and on the board a scan says the same, in one message, which is a warning
  -- exactly if garments of the bag were left where they were.
  pub scan_exact :
      (result : ScanResult) (v : String × String)
      → (said : Toast) × (toasts_of ((use_scan_bag number_text lower order).on_success result v)
          ≡ said ∷ [])
        × (toasts_of ((use_board_scan number_text lower).on_success result v) ≡ said ∷ [])
        × ((is_warning said ≡ true) ↔ (0 < result.skipped_count))
  scan_exact result v = (
    scan_toast number_text lower result,
    refl,
    refl,
    ground (arith, scan_toast-is_warning result),
  )
