-- ===== src/Agent/Update/Installs.antt =====
-- What an update installs and what is told of it.
use robot_fleet.Prelude.{
  ◌≡◌, refl, ap, ◌∙◌, String, true, false, List, [], ◌∷◌, map, arith, ◌==◌, ◌||◌, ok, ◌⊎◌, inl, inr,
  Result-cases, is_ok,
}
use robot_fleet.Agent.Update.{
  Machine, UpdateCommand, AckUpdateRequest, Installed, Commands, apply_update, run_stream,
}

module _ (m : Machine) where
  -- what is run is what was downloaded from the URL, with the checksum that was asked for, if one was
  abbrev pub Verified : String → String → m.Bytes → Type 0
  Verified url sha bytes =
      (m.get url ≡ ok (ok bytes))
      × (((sha == "") || (m.sha256 bytes == sha)) ≡ true)
      × (m.has_install_script bytes ≡ true)

  apply_downloaded :
      (url sha : String) (bytes : m.Bytes) (s : Installed m)
      → m.get url ≡ ok (ok bytes)
      → ((apply_update m url sha s).1 ≡ s) × (is_ok (apply_update m url sha s).0 ≡ false)
        ⊎ ((apply_update m url sha s).1 ≡ bytes ∷ s)
          × Verified url sha bytes
          × (is_ok (apply_update m url sha s).0 ≡ (m.exit_code bytes == "0"))
  unfolding apply_update
  apply_downloaded url sha bytes s h = ground arith

  -- Either no script is run, or exactly one is, of the archive downloaded from the URL, whose SHA-256 is
  -- the expected one or none is expected; and success is told only of an archive whose script was run
  -- and exited with 0.
  pub apply_update-Verified :
      (url sha : String) (s : Installed m)
      → ((apply_update m url sha s).1 ≡ s) × (is_ok (apply_update m url sha s).0 ≡ false)
        ⊎ ((bytes : m.Bytes) × ((apply_update m url sha s).1 ≡ bytes ∷ s)
            × Verified url sha bytes
            × (is_ok (apply_update m url sha s).0 ≡ (m.exit_code bytes == "0")))
  unfolding apply_update
  apply_update-Verified url sha s = elim (Result-cases (m.get url)) [
    | inl (e, k) ↦ inl (ground arith)
    | inr (response, k) ↦ elim (Result-cases response) [
      | inl (e, l) ↦ inl (ground arith)
      | inr (bytes, l) ↦ elim (apply_downloaded url sha bytes s (k ∙ ap ok l)) [
        | inl none_run ↦ inl none_run
        | inr (run, verified, told) ↦ inr (bytes, run, verified, told)
      ]
    ]
  ]

  abbrev pub job_of : AckUpdateRequest → String
  job_of a = a.update_job_id

  -- a stream of commands whose acknowledgements are all accepted
  abbrev pub accepted : List UpdateCommand → Commands m
  accepted [] = []
  accepted (cmd ∷ cmds) = (ok cmd, ok tt) ∷ accepted cmds

  abbrev pub command_job : UpdateCommand → String
  command_job c = c.update_job_id

  -- Every command is acknowledged once, in the order of the stream and under the id of its own job,
  -- whether its update could be applied or not, if the service accepts the acknowledgements.
  pub every_command_acknowledged :
      (device_id : String) (cmds : List UpdateCommand) (s : Installed m)
      → let q = run_stream m device_id (accepted cmds) s in
        (q.0 ≡ ok tt) × (map job_of q.1.0 ≡ map command_job cmds)
  unfolding run_stream
  every_command_acknowledged device_id [] s = (refl, refl)
  every_command_acknowledged device_id (cmd ∷ cmds) s =
      let (r, ids) =
        every_command_acknowledged device_id cmds
          (apply_update m cmd.artifact_url cmd.sha256 s).1 in
      elim (Result-cases (apply_update m cmd.artifact_url cmd.sha256 s).0) [
        | inl (e, k) ↦ ground (arith, r, ids, k)
        | inr (u, k) ↦ ground (arith, r, ids, k)
      ]
