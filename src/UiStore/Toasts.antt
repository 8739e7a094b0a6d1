-- ===== src/UiStore/Toasts.antt =====
-- The toasts (ui/src/store/useStore.ts, addToast and removeToast).
use mathlib.Core.Path.{subst}
use watchwarden.Base.{
  ℕ, zero, suc, ◌-◌, ◌≤◌, ◌≡◌, refl, sym, ap, not, List, [], ◌∷◌, arith, Text, Option, ◌==◌, length,
  drop, length-append, length-drop, length-keep-le, All, All-append, All-mono, All-keep,
}
use watchwarden.JsMap
use watchwarden.UiStore.{
  Store, Toast, Kind, Message, UpdateResult, last_four, add_toast, remove_toast, check_complete,
  update_complete, clear_completed, tell_complete,
}

-- What changes the toasts, or may.
pub data Call : Type 0 where
  add : Kind → Message → (now : ℕ) → Call
  remove : (id : ℕ) → Call
  checked : (agent_id : Text) (available failed : Option ℕ) (now : ℕ) → Call
  updated : (agent_id : Text) → List UpdateResult → (now : ℕ) → Call

unfoldable pub step : Call → Store → Store
step (add kind message now) s = add_toast kind message now s
step (remove id) s = remove_toast id s
step (checked a available failed now) s = check_complete a available failed now s
step (updated a results now) s = update_complete a results now s

unfoldable pub run : List Call → Store → Store
unfolding step
run [] s = s
run (c ∷ cs) s = run cs (step c s)

-- At most five toasts are shown, with numbers that were given out.
pub record IsValid (s : Store) : Type 0 where
  pub few : length s.toasts ≤ 5
  pub given : All (λ t. t.id ≤ s.toast_counter) s.toasts

All-drop {κ} : (P : Toast → Type κ) (n : ℕ) (ts : List Toast) → All P ts → All P (drop n ts)
All-drop P zero ts h = h
All-drop P (suc n) [] h = tt
All-drop P (suc n) (t ∷ ts) (p, h) = All-drop P n ts h

add_toast-IsValid :
    (kind : Kind) (message : Message) (now : ℕ) (s : Store)
    → IsValid s
    → IsValid (add_toast kind message now s)
unfolding add_toast last_four
add_toast-IsValid kind message now s v =
    let kept = drop (length s.toasts - 4) s.toasts in
    record {
      few = omega (arith, length-append kept _, length-drop (length s.toasts - 4) s.toasts, v.few);
      given =
          All-append _ kept _
            (All-mono _ _ kept (λ t h. omega (arith, h)) (All-drop _ _ s.toasts v.given))
            (omega arith, tt);
    }

remove_toast-IsValid : (id : ℕ) (s : Store) → IsValid s → IsValid (remove_toast id s)
unfolding remove_toast
remove_toast-IsValid id s v = record {
  few = omega (arith, length-keep-le (λ t. not (t.id == id)) s.toasts, v.few);
  given = All-keep _ (λ t. not (t.id == id)) s.toasts v.given;
}

same-IsValid :
    (s r : Store) → r.toasts ≡ s.toasts → r.toast_counter ≡ s.toast_counter → IsValid s → IsValid r
same-IsValid s r e f v = record {
  few = omega (arith, ap length e, v.few);
  given =
      subst (λ ts. All (λ t. t.id ≤ r.toast_counter) ts) (sym e)
        (All-mono _ _ s.toasts (λ t h. omega (arith, h, f)) v.given);
}

step-IsValid : (c : Call) (s : Store) → IsValid s → IsValid (step c s)
unfolding step check_complete update_complete clear_completed tell_complete
step-IsValid (add kind message now) s v = add_toast-IsValid kind message now s v
step-IsValid (remove id) s v = remove_toast-IsValid id s v
step-IsValid (checked a available failed now) s v =
    let idle = record s { checking_agents = JsMap.remove a s.checking_agents } in
    add_toast-IsValid _ _ now idle (same-IsValid s idle refl refl v)
step-IsValid (updated a results now) s v =
    let cleared = clear_completed a results s in
    same-IsValid (tell_complete results now cleared) (update_complete a results now s) refl refl
      (add_toast-IsValid _ _ now cleared (same-IsValid s cleared refl refl v))

-- However many checks and updates end, and toasts are added and removed: from a store that shows at
-- most five toasts, all with numbers that were given out, at most five are shown, all with numbers
-- that were given out.
pub run-few_toasts : (cs : List Call) (s : Store) → IsValid s → IsValid (run cs s)
unfolding run
run-few_toasts [] s v = v
run-few_toasts (c ∷ cs) s v = run-few_toasts cs (step c s) (step-IsValid c s v)
