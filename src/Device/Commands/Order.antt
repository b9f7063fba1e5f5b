-- ===== src/Device/Commands/Order.antt =====
-- A command that can end the process is recorded and acknowledged before any of its work.
use portapixel.Prelude.{
  ℕ, ◌≡◌, refl, sym, ap, ◌∙◌, inl, inr, Bool, true, false, Option, none, some, List, [], ◌∷◌, ◌++◌,
  take, if◌then◌else◌, Bool-cases,
}
use mathlib.Core.List.{append_assoc, append-nil}
use portapixel.Manifest.Name.{clean_name}
use portapixel.Device.Identity.{ran_command}
use portapixel.Device.Commands.{
  Outside, Command, Kind, Round, Event, heartbeat, local, updated, name_saved, state_saved, log,
  Line, command_fail, renamed, rename_fail, rename_refused, update_fail, ack_fail, command,
  command_unknown, restart_player, screen_on, screen_off, rescan, update, rename, unknown, emit,
  attempt, run_local, mark_ran, execute, send_heartbeat, finish, run_command, reboot, execute_kind,
  ends_the_process, max_acks, state_write_fail, run_update, logged_local, rename_device, rename_to,
  save_name,
}

-- The first list is the start of the second.
pub record Extends (es es' : List Event) : Type 0 where
  pub more : List Event
  pub split : es' ≡ es ++ more

Extends-refl : (es : List Event) → Extends es es
Extends-refl es = record { more = []; split = sym (append-nil es) }

Extends-trans : {a b c : List Event} → Extends a b → Extends b c → Extends a c
Extends-trans {a} x y = record {
  more = x.more ++ y.more;
  split = y.split ∙ ap (λ l. l ++ y.more) x.split ∙ append_assoc a x.more y.more;
}

Extends-emit : (e : Event) (r : Round) → Extends r.events (emit e r).events
unfolding emit
Extends-emit e r = record { more = e ∷ []; split = refl }

-- The line behind a call: none when it succeeds.
abbrev pub failure_log : Bool → Line → List Event
failure_log true l = []
failure_log false l = log l ∷ []

-- A call is the next event, and behind it comes at most the line that says that it failed.
events-attempt :
    (out : Outside) (e : Event) (l : Line) (r : Round)
    → (attempt out e l r).events ≡ r.events ++ e ∷ failure_log (out.succeeds (r.events ++ e ∷ [])) l
unfolding attempt emit
events-attempt out e l r = elim (Bool-cases (out.succeeds (r.events ++ e ∷ []))) [
  | inl s ↦ rw s
  | inr s ↦ rw s (append_assoc r.events (e ∷ []) (log l ∷ []))
]

Extends-attempt :
    (out : Outside) (e : Event) (l : Line) (r : Round) → Extends r.events (attempt out e l r).events
Extends-attempt out e l r = record {
  more = e ∷ failure_log (out.succeeds (r.events ++ e ∷ [])) l;
  split = events-attempt out e l r;
}

Extends-if :
    {es : List Event} (b : Bool) (x y : Round)
    → Extends es x.events
    → Extends es y.events
    → Extends es (if b then x else y).events
Extends-if true x y p q = p
Extends-if false x y p q = q

Extends-run_local :
    (out : Outside) (k : Kind) (r : Round) → Extends r.events (run_local out k r).events
unfolding run_local
Extends-run_local out k r =
    Extends-if out.has_command _ _ (Extends-attempt out (local k) (command_fail k) r)
      (Extends-refl r.events)

Extends-save_name :
    (out : Outside) (name : List ℕ) (r : Round) → Extends r.events (save_name out name r).events
unfolding save_name
Extends-save_name out name r =
    let r' = emit (name_saved name) r in
    Extends-trans (Extends-emit (name_saved name) r) (
      Extends-if (out.succeeds r'.events) _ _ (Extends-emit (log (renamed name)) r')
        (Extends-emit (log rename_fail) r'))

Extends-rename_to :
    (out : Outside) (name : Option (List ℕ)) (r : Round)
    → Extends r.events (rename_to out name r).events
unfolding rename_to
Extends-rename_to out none r = Extends-emit (log rename_refused) r
Extends-rename_to out (some name) r =
    Extends-if out.has_save_name _ _ (Extends-save_name out name r) (Extends-refl r.events)

Extends-logged_local :
    (out : Outside) (k : Kind) (r : Round) → Extends r.events (logged_local out k r).events
unfolding logged_local
Extends-logged_local out k r =
    Extends-trans (Extends-emit (log (command k)) r)
      (Extends-run_local out k (emit (log (command k)) r))

Extends-run_update : (out : Outside) (r : Round) → Extends r.events (run_update out r).events
unfolding run_update
Extends-run_update out r =
    Extends-if out.has_update _ _ (Extends-attempt out updated update_fail r)
      (Extends-refl r.events)

Extends-execute_kind :
    (out : Outside) (k : Kind) (name : List ℕ) (r : Round)
    → Extends r.events (execute_kind out k name r).events
unfolding execute_kind rename_device
Extends-execute_kind out restart_player name r = Extends-logged_local out restart_player r
Extends-execute_kind out screen_on name r = Extends-logged_local out screen_on r
Extends-execute_kind out screen_off name r = Extends-logged_local out screen_off r
Extends-execute_kind out rescan name r = Extends-logged_local out rescan r
Extends-execute_kind out update name r =
    Extends-trans (Extends-emit (log (command update)) r)
      (Extends-run_update out (emit (log (command update)) r))
Extends-execute_kind out rename name r = Extends-rename_to out (clean_name name) r
Extends-execute_kind out reboot name r = Extends-emit (log (command_unknown "reboot")) r
Extends-execute_kind out (unknown word) name r = Extends-emit (log (command_unknown word)) r

Extends-finish :
    (out : Outside) (c : Command) (k : Kind) (r : Round)
    → Extends r.events (finish out c k r).0.events
unfolding finish execute
Extends-finish out c reboot r =
    Extends-trans (Extends-emit (log (command reboot)) r)
      (Extends-run_local out reboot (emit (log (command reboot)) r))
Extends-finish out c _ r = Extends-execute_kind out c.kind c.name r

-- The events of a command that was acknowledged first: the record in the state file, the line that
-- this record failed if it did, the heartbeat, the line that this failed if it did, and only then
-- the rest.
pub record AckedFirst (out : Outside) (c : Command) (acks : List ℕ) (before after : List Event)
    : Type 0 where
  pub rest : List Event
  pub split :
      let saved = before ++ state_saved c.id ∷ [] in
      let saved_line = failure_log (out.succeeds saved) state_write_fail in
      let beat = heartbeat (take max_acks (acks ++ c.id ∷ [])) in
      let beaten = before ++ state_saved c.id ∷ (saved_line ++ beat ∷ []) in
      let beat_line = failure_log (out.succeeds beaten) (ack_fail c.kind) in
      after ≡ before ++ state_saved c.id ∷ (saved_line ++ beat ∷ (beat_line ++ rest))

events-mark_ran :
    (out : Outside) (id : ℕ) (r : Round)
    → (mark_ran out id r).events
      ≡ r.events
        ++ state_saved id
          ∷ failure_log (out.succeeds (r.events ++ state_saved id ∷ [])) state_write_fail
unfolding mark_ran
events-mark_ran out id r = events-attempt out (state_saved id) state_write_fail _

events-send_heartbeat :
    (out : Outside) (k : Kind) (acks : List ℕ) (r : Round)
    → (send_heartbeat out k acks r).events
      ≡ r.events
        ++ heartbeat (take max_acks acks)
          ∷ failure_log
              (out.succeeds (r.events ++ heartbeat (take max_acks acks) ∷ []))
              (ack_fail k)
unfolding send_heartbeat
events-send_heartbeat out k acks r = events-attempt out _ _ r

regroup :
    (es xs ys zs : List Event) (x y : Event)
    → ((es ++ x ∷ xs) ++ y ∷ ys) ++ zs ≡ es ++ x ∷ (xs ++ y ∷ (ys ++ zs))
regroup es xs ys zs x y = simp append_assoc

-- A new command that can end the process, a reboot or an update, first causes a write of the state
-- file, with a line in the log exactly if that fails, and then a heartbeat with the first 100 of the
-- acknowledgements, its own the last of them, with a line in the log exactly if that fails; all else
-- that it causes comes after.
pub run_command_acks_first :
    (out : Outside) (c : Command) (acks : List ℕ) (r : Round)
    → ends_the_process c.kind ≡ true
    → ran_command c.id r.state ≡ false
    → AckedFirst out c acks r.events (run_command out c acks r).0.events
unfolding run_command
run_command_acks_first out c acks r ends new =
    let acks' = acks ++ c.id ∷ [] in
    let beat = heartbeat (take max_acks acks') in
    let marked = mark_ran out c.id r in
    let beaten = send_heartbeat out c.kind acks' marked in
    let done = Extends-finish out c c.kind beaten in
    let line = failure_log (out.succeeds (r.events ++ state_saved c.id ∷ [])) state_write_fail in
    let said : List Event → List Event =
      λ es. failure_log (out.succeeds (es ++ beat ∷ [])) (ack_fail c.kind) in
    let asked : marked.events ++ beat ∷ [] ≡ r.events ++ state_saved c.id ∷ (line ++ beat ∷ []) =
      ap (λ l. l ++ beat ∷ []) (events-mark_ran out c.id r)
      ∙ append_assoc r.events (state_saved c.id ∷ line) (beat ∷ []) in
    rw (new, ends)
      (record {
        rest = done.more;
        split =
            done.split
            ∙ ap (λ l. l ++ done.more)
                (events-send_heartbeat out c.kind acks' marked
                  ∙ ap (λ l. l ++ beat ∷ said marked.events) (events-mark_ran out c.id r))
            ∙ regroup r.events line (said marked.events) done.more (state_saved c.id) beat
            ∙ ap
                (λ es.
                  r.events
                  ++ state_saved c.id
                    ∷ (line
                        ++ beat ∷ (failure_log (out.succeeds es) (ack_fail c.kind) ++ done.more)))
                asked;
      })
