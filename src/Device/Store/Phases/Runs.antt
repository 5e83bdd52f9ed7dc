-- ===== src/Device/Store/Phases/Runs.antt =====
-- The machine of phases over any sequence of calls, a COMMIT that fails on the way included.
use robot_fleet.Prelude.{
  ◌≡◌, refl, ap, ◌∙◌, String, Bool, Option, none, some, List, [], ◌∷◌, arith, Option-cases, inl,
  inr, ◌&&◌, not, is_some, if◌then◌else◌,
}
use robot_fleet.Sql.{Conn, durable}
use robot_fleet.Device.Store.{Tables}
use robot_fleet.Device.Store.Calls.{Call, perform, run}
use robot_fleet.Device.Store.Stuck.{durable-perform}
use robot_fleet.Device.Store.Phases.{Phase, act, phase, succeeds, perform_follows}

-- a call that succeeds, and not inside a transaction that was left open
abbrev pub takes_effect : Call → Conn Tables → Bool
takes_effect call c = succeeds call c && not (is_some c.saved)

module _ (serial : String) where
  -- The machine on exactly the calls of a run that take effect; none if it refuses one of them.
  abbrev pub replay : List Call → Conn Tables → Option Phase → Option Phase
  replay calls c none = none
  replay [] c (some p) = some p
  replay (call ∷ calls) c (some p) =
      replay calls (perform call c) (if takes_effect call c then act serial call p else some p)

  perform_along :
      (call : Call) (c : Conn Tables)
      → (if takes_effect call c
          then act serial call (phase serial (durable c))
          else some (phase serial (durable c)))
        ≡ some (phase serial (durable (perform call c)))
  perform_along call c = elim (Option-cases c.saved) [
    | inl idle ↦ ground (arith, idle, perform_follows serial call c idle)
    | inr (t, open_still) ↦ ground (arith, open_still, durable-perform t call c open_still)
  ]

  -- However the store is used and whatever fails, the durable tables follow the machine: the calls that
  -- succeed while no transaction is left open act, each as the machine says and none against it, and all
  -- others do nothing. A COMMIT may have failed before or on the way, and a transaction be left open.
  pub run_along :
      (calls : List Call) (c : Conn Tables)
      → replay calls c (some (phase serial (durable c)))
        ≡ some (phase serial (durable (run calls c)))
  unfolding run
  run_along [] c = refl
  run_along (call ∷ calls) c =
      ap (replay calls (perform call c)) (perform_along call c) ∙ run_along calls (perform call c)
