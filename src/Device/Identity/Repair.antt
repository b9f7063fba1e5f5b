-- ===== src/Device/Identity/Repair.antt =====
-- Resolve: what a boot does with the identity that the device stored.
use portapixel.Prelude.{
  ◌≡◌, ◌≢◌, sym, ap, inl, inr, Bool, true, false, not, ◌&&◌, ◌||◌, [], arith, str_eq, eq_iff,
  eq_refl, Bool-cases,
}
use portapixel.Device.Identity.{
  State, empty_state, Identity, File, holds, missing, damaged, resolve, resolve_state, load_state,
}

-- The pairing, and what the device remembers, are as they were.
pub record SamePairing (s t : State) : Type 0 where
  pub device_token : t.device_token ≡ s.device_token
  pub claim_secret : t.claim_secret ≡ s.claim_secret
  pub pairing_code : t.pairing_code ≡ s.pairing_code
  pub pending_since : t.pending_since ≡ s.pending_since
  pub server_url : t.server_url ≡ s.server_url
  pub commands : t.commands ≡ s.commands
  pub bad_releases : t.bad_releases ≡ s.bad_releases
  pub reboots : t.reboots ≡ s.reboots

-- Whatever board the card is put in, the device takes the hardware identity of the board and keeps
-- its pairing and its memory. It raises the flag of a changed hardware exactly when it had an
-- identity before and the new one differs, and never takes the flag back.
pub resolve_repairs :
    (write_ok : Bool) (id : Identity) (s : State)
    → let t = (resolve write_ok id (holds s)).0 in
      (t.hardware_id ≡ id.hardware)
      × SamePairing s t
      × (t.hardware_changed ≡ (
          s.hardware_changed
          || (not (str_eq s.hardware_id "") && not (str_eq s.hardware_id id.hardware))))
unfolding resolve load_state resolve_state
resolve_repairs write_ok id s =
    (ground (arith, eq_iff s.hardware_id id.hardware), ground arith, ground arith)

resolve_state_again :
    (id : Identity) (s : State)
    → id.hardware ≢ ""
    → let (t, lines, write) = resolve_state id s in resolve_state id t ≡ (t, [], false)
unfolding resolve_state
resolve_state_again id s named = ground (
  arith,
  eq_iff id.hardware "",
  eq_iff s.hardware_id id.hardware,
  eq_iff s.hardware_source id.source,
  eq_refl id.hardware,
  eq_refl id.source,
)

resolve_state_unwritten :
    (id : Identity) (s : State) → (resolve_state id s).2 ≡ false → (resolve_state id s).0 ≡ s
unfolding resolve_state
resolve_state_unwritten id s h = ground arith

resolve_state_empty : (id : Identity) → (resolve_state id empty_state).2 ≡ true
unfolding resolve_state
resolve_state_empty id = rw (eq_refl "")

resolve-holds :
    (write_ok : Bool) (id : Identity) (s : State)
    → resolve_state id s ≡ (s, [], false)
    → resolve write_ok id (holds s) ≡ (s, [], holds s)
unfolding resolve load_state
resolve-holds write_ok id s e = rw e

resolve-file :
    (id : Identity) (file : File)
    → (resolve true id file).2 ≡ holds (resolve_state id (load_state file).0).0
unfolding resolve load_state
resolve-file id missing = rw (resolve_state_empty id)
resolve-file id damaged = rw (resolve_state_empty id)
resolve-file id (holds s) = elim (Bool-cases (resolve_state id s).2) [
  | inl e ↦ rw e
  | inr e ↦ rw e (ap holds (sym (resolve_state_unwritten id s e)))
]

-- After a boot whose write went through, the next boot on the same board changes nothing, says
-- nothing in the ops log and writes nothing.
resolve_twice :
    (id : Identity) (file : File)
    → id.hardware ≢ ""
    → let (s, lines, file') = resolve true id file in resolve true id file' ≡ (s, [], file')
unfolding resolve
resolve_twice id file named =
    rw (resolve-file id file) (resolve-holds true id _ (resolve_state_again id _ named))
