-- ===== src/Push/Routes.antt =====
-- Where a tapped message leads.
use Prim.Native.Char.{Char, code}
use Prim.Native.String.{◌++◌ as join}
use ironman.Prelude.{
  ◌≤◌, ◌≡◌, refl, ◌⊎◌, inl, inr, String, Bool, true, false, ◌&&◌, ◌||◌, Option, none, some, leb,
  nat_eq, arith, Bool-cases,
}
use ironman.Booking.{text_length}
use ironman.Push.{is_id_char, has_id_chars, route_for_notification}

-- A `/` in a text.
unfoldable pub has_slash : String → Bool
has_slash String.[] = false
has_slash (String.◌∷◌ c s) = nat_eq (code c) 47 || has_slash s

is_id_char-slash : (c : Char) → is_id_char c ≡ true → nat_eq (code c) 47 ≡ false
is_id_char-slash c e = ground arith

has_slash-id_chars : (s : String) → has_id_chars s ≡ true → has_slash s ≡ false
unfolding has_id_chars has_slash
has_slash-id_chars String.[] e = refl
has_slash-id_chars (String.◌∷◌ c s) e = ground (arith, is_id_char-slash c, has_slash-id_chars s)

-- A message leads home, or to the page of the order that it names, by an id of at least 16 characters
-- and without a `/`: whatever a message holds, it leads to no other page.
pub route_exact :
    (id : Option String)
    → (route_for_notification id ≡ "/")
      ⊎ ((order : String) × (id ≡ some order)
          × (route_for_notification id ≡ join "/orders/" order)
          × (has_slash order ≡ false)
          × (16 ≤ text_length order))
unfolding route_for_notification
route_exact none = inl refl
route_exact (some order) = elim (Bool-cases (has_id_chars order && leb 16 (text_length order))) [
  | inl e ↦
      inr (order, refl, rw e refl, has_slash-id_chars order (ground (arith, e)), ground (arith, e))
  | inr e ↦ inl (rw e refl)
]
