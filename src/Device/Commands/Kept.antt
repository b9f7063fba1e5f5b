-- ===== src/Device/Commands/Kept.antt =====
-- What the commands leave alone in the state of a device.
use portapixel.Prelude.{ℕ, Bool, Option, none, some, List, [], ◌∷◌, ◌++◌, if-case}
use portapixel.Manifest.Name.{clean_name}
use portapixel.Device.Identity.{State, mark_command, ran_command}
use portapixel.Device.Commands.{
  Kind, reboot, restart_player, screen_on, screen_off, rescan, update, rename, unknown, Command,
  Line, Event, Outside, Round, emit, attempt, run_local, mark_ran, save_name, rename_to,
  rename_device, run_update, logged_local, execute_kind, execute, send_heartbeat, ends_the_process,
  finish, run_command, run_commands,
}

-- A predicate of the state that the memory of commands has no part in.
module _ {P : State → Type 0} (marked : (id : ℕ) (s : State) → P s → P (mark_command id s)) where
  attempt-Kept :
      (out : Outside) (e : Event) (line : Line) (r : Round)
      → P r.state
      → P (attempt out e line r).state
  unfolding attempt emit
  attempt-Kept out e line r h =
      if-case (λ (k : Round). P (k.state)) (out.succeeds (r.events ++ e ∷ [])) _ _ (λ s. h) (λ s. h)

  run_local-Kept :
      (out : Outside) (kind : Kind) (r : Round) → P r.state → P (run_local out kind r).state
  unfolding run_local
  run_local-Kept out kind r h =
      if-case (λ (k : Round). P (k.state)) out.has_command _ _ (λ s. attempt-Kept out _ _ r h)
        (λ s. h)

  mark_ran-Kept : (out : Outside) (id : ℕ) (r : Round) → P r.state → P (mark_ran out id r).state
  unfolding mark_ran
  mark_ran-Kept out id r h = attempt-Kept out _ _ _ (marked id r.state h)

  rename_to-Kept :
      (out : Outside) (name : Option (List ℕ)) (r : Round)
      → P r.state
      → P (rename_to out name r).state
  unfolding rename_to save_name emit
  rename_to-Kept out none r h = h
  rename_to-Kept out (some name) r h =
      if-case (λ (k : Round). P (k.state)) out.has_save_name _ _
        (λ s.
          if-case (λ (k : Round). P (k.state)) (out.succeeds (r.events ++ _ ∷ [])) _ _ (λ t. h)
            (λ t. h))
        (λ s. h)

  run_update-Kept : (out : Outside) (r : Round) → P r.state → P (run_update out r).state
  unfolding run_update
  run_update-Kept out r h =
      if-case (λ (k : Round). P (k.state)) out.has_update _ _ (λ s. attempt-Kept out _ _ r h)
        (λ s. h)

  logged_local-Kept :
      (out : Outside) (kind : Kind) (r : Round) → P r.state → P (logged_local out kind r).state
  unfolding logged_local emit
  logged_local-Kept out kind r h = run_local-Kept out kind _ h

  execute_kind-Kept :
      (out : Outside) (kind : Kind) (name : List ℕ) (r : Round)
      → P r.state
      → P (execute_kind out kind name r).state
  unfolding execute_kind rename_device emit
  execute_kind-Kept out restart_player name r h = logged_local-Kept out restart_player r h
  execute_kind-Kept out screen_on name r h = logged_local-Kept out screen_on r h
  execute_kind-Kept out screen_off name r h = logged_local-Kept out screen_off r h
  execute_kind-Kept out rescan name r h = logged_local-Kept out rescan r h
  execute_kind-Kept out update name r h = run_update-Kept out _ h
  execute_kind-Kept out rename name r h = rename_to-Kept out (clean_name name) r h
  execute_kind-Kept out reboot name r h = h
  execute_kind-Kept out (unknown word) name r h = h

  finish-Kept :
      (out : Outside) (c : Command) (kind : Kind) (r : Round)
      → P r.state
      → P (finish out c kind r).0.state
  unfolding finish execute emit
  finish-Kept out c reboot r h = run_local-Kept out reboot _ h
  finish-Kept out c restart_player r h = execute_kind-Kept out c.kind c.name r h
  finish-Kept out c screen_on r h = execute_kind-Kept out c.kind c.name r h
  finish-Kept out c screen_off r h = execute_kind-Kept out c.kind c.name r h
  finish-Kept out c rescan r h = execute_kind-Kept out c.kind c.name r h
  finish-Kept out c update r h = execute_kind-Kept out c.kind c.name r h
  finish-Kept out c rename r h = execute_kind-Kept out c.kind c.name r h
  finish-Kept out c (unknown word) r h = execute_kind-Kept out c.kind c.name r h

  run_command-Kept :
      (out : Outside) (c : Command) (acks : List ℕ) (r : Round)
      → P r.state
      → P (run_command out c acks r).0.state
  unfolding run_command execute send_heartbeat
  run_command-Kept out c acks r h =
      let Q : Round × List ℕ × Bool → Type 0 = λ t. P (t.0.state) in
      if-case Q (ran_command c.id r.state) _ _ (λ s. h)
        (λ s.
          if-case Q (ends_the_process c.kind) _ _
            (λ t. finish-Kept out c c.kind _ (attempt-Kept out _ _ _ (mark_ran-Kept out c.id r h)))
            (λ t. mark_ran-Kept out c.id _ (execute_kind-Kept out c.kind c.name r h)))

  -- Such a predicate holds after any commands.
  pub run_commands-Kept :
      (out : Outside) (cs : List Command) (acks : List ℕ) (r : Round)
      → P r.state
      → P (run_commands out cs acks r).0.state
  unfolding run_commands
  run_commands-Kept out [] acks r h = h
  run_commands-Kept out (c ∷ cs) acks r h =
      let Q : Round × List ℕ × Bool → Type 0 = λ t. P (t.0.state) in
      let one = run_command-Kept out c acks r h in
      if-case Q (run_command out c acks r).2 _ _ (λ s. one) (λ s. run_commands-Kept out cs _ _ one)
