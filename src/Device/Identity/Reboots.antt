-- ===== src/Device/Identity/Reboots.antt =====
-- The reboot loop guard: ten stored times decide as the whole history of reboots does.
use portapixel.Prelude.{
  ℕ, zero, suc, ◌+◌, ◌-◌, ◌≤◌, ◌<◌, ◌≡◌, refl, sym, ap, ◌∙◌, ◌⊎◌, inl, inr, List, [], ◌∷◌, ◌++◌,
  arith, ltb, leb, length, drop, length-append, length-drop, drop-append_left, drop-drop,
  Bool-cases, tests,
}
use mathlib.Core.List.{append-nil, append_assoc}
use portapixel.Device.Identity.{
  State, empty_state, max_reboots, max_reboot_log, reboot_window, keep_newest, mark_reboot,
  count_recent, reboot_loop,
}

abbrev pub AllFrom : ℕ → List ℕ → Type 0
AllFrom t [] = Unit
AllFrom t (u ∷ us) = (t ≤ u) × AllFrom t us

-- The clock does not go back.
abbrev pub Ascending : List ℕ → Type 0
Ascending [] = Unit
Ascending (t ∷ ts) = AllFrom t ts × Ascending ts

pub mark_reboots : List ℕ → State → State
mark_reboots [] s = s
mark_reboots (t ∷ ts) s = mark_reboots ts (mark_reboot t s)

-- The log is what is left of the history when its oldest times are dropped, and none are dropped
-- from a log that is not full.
record Tail (history log : List ℕ) : Type 0 where
  dropped : ℕ
  is_drop : log ≡ drop dropped history
  fits : dropped ≤ length history
  full : (dropped ≡ 0) ⊎ (max_reboot_log ≤ length log)

Tail-mark :
    (t : ℕ) (history log : List ℕ)
    → Tail history log
    → Tail (history ++ t ∷ []) (keep_newest max_reboot_log (log ++ t ∷ []))
unfolding keep_newest
Tail-mark t history log w =
    let next : log ++ t ∷ [] ≡ drop w.dropped (history ++ t ∷ []) =
      rw w.is_drop (sym (drop-append_left w.dropped history (t ∷ []) w.fits)) in
    let more = length-append log (t ∷ []) in
    let longer = length-append history (t ∷ []) in
    elim (Bool-cases (ltb max_reboot_log (length (log ++ t ∷ [])))) [
      | inl e ↦
          let d = length (log ++ t ∷ []) - max_reboot_log in
          rw e (record {
            dropped = w.dropped + d;
            is_drop = ap (drop d) next ∙ drop-drop w.dropped d (history ++ t ∷ []);
            fits = omega (arith, more, longer, ap length w.is_drop, length-drop w.dropped history);
            full = inr (omega (tests, e, length-drop d (log ++ t ∷ [])));
          })
      | inr e ↦ rw e (record {
        dropped = w.dropped;
        is_drop = next;
        fits = omega (arith, longer, w.fits);
        full = elim w.full [
          | inl none_dropped ↦ inl none_dropped
          | inr filled ↦ inr (omega (arith, more))
        ];
      })
    ]

count_recent-AllFrom :
    (now t : ℕ) (ts : List ℕ)
    → AllFrom t ts
    → now < t + reboot_window
    → count_recent now ts ≡ length ts
unfolding count_recent
count_recent-AllFrom now t [] a h = refl
count_recent-AllFrom now t (u ∷ us) a h = ground (arith, count_recent-AllFrom now t us a.1 h)

-- With at least the limit left, dropping old times changes no verdict.
verdict-drop :
    (now d : ℕ) (ts : List ℕ)
    → Ascending ts
    → max_reboots ≤ length (drop d ts)
    → leb max_reboots (count_recent now (drop d ts)) ≡ leb max_reboots (count_recent now ts)
verdict-drop now zero ts a h = refl
verdict-drop now (suc d) [] a h = refl
verdict-drop now (suc d) (t ∷ ts) a h =
    verdict-drop now d ts a.1 h
    ∙ unfold count_recent in ground (arith, count_recent-AllFrom now t ts a.0, length-drop d ts)

Tail-mark_reboots :
    (ts history : List ℕ) (s : State)
    → Tail history s.reboots
    → Tail (history ++ ts) (mark_reboots ts s).reboots
unfolding mark_reboots mark_reboot
Tail-mark_reboots [] history s w = rw append-nil w
Tail-mark_reboots (t ∷ ts) history s w =
    rw (← append_assoc history (t ∷ []) ts)
      (Tail-mark_reboots ts (history ++ t ∷ []) (mark_reboot t s) (Tail-mark t history s.reboots w))

verdict-Tail :
    (now : ℕ) (history log : List ℕ)
    → Ascending history
    → Tail history log
    → leb max_reboots (count_recent now log) ≡ leb max_reboots (count_recent now history)
verdict-Tail now history log a w = elim w.full [
  | inl e ↦ rw (w.is_drop, e) refl
  | inr filled ↦
      ap (λ l. leb max_reboots (count_recent now l)) w.is_drop
      ∙ verdict-drop now w.dropped history a
          (omega (arith, ap (λ (l : List ℕ). length l) w.is_drop))
]

-- With a clock that does not go back, the ten times that the state file keeps find a reboot loop at
-- exactly the times at which the whole history of reboots would.
pub reboot_loop-mark_reboots :
    (now : ℕ) (history : List ℕ)
    → Ascending history
    → (reboot_loop now (mark_reboots history empty_state)).1
      ≡ leb max_reboots (count_recent now history)
unfolding reboot_loop
reboot_loop-mark_reboots now history a = verdict-Tail now history _ a (
    Tail-mark_reboots history [] empty_state
      (record { dropped = 0; is_drop = refl; fits = omega arith; full = inl refl }))
