-- ===== src/Tests/StartupTests.antt =====
-- The start of the device service at concrete inputs.
use robot_fleet.Prelude.{◌≡◌, refl, none, some, List, [], ◌∷◌, All}
use robot_fleet.Sql.{durable}
use robot_fleet.Sql.Table.{find}
use robot_fleet.Device.Store.{entry_serial}
use robot_fleet.Device.Startup.{entries, start_store}
use robot_fleet.Device.Startup.Manifest.{Line, IsLine, entries-manifest}
use robot_fleet.Device.Startup.Seeding.{start_store_keeps}
use robot_fleet.Tests.Fixtures.{registry, entry}

abbrev pub lines : List Line
lines =
    record { serial = "SN-5"; token = "tok"; model = none }
    ∷ record { serial = "SN-6"; token = "tok"; model = some "Beta:2" }
    ∷ []

pub lines-AreLines : All IsLine lines
lines-AreLines = (
  record {
    serial_plain = ((refl, (refl, (refl, (refl, tt)))), (refl, (refl, (refl, (refl, tt)))), refl);
    token_plain = ((refl, (refl, (refl, tt))), (refl, (refl, (refl, tt))));
    end_plain = refl;
  },
  (
    record {
      serial_plain = ((refl, (refl, (refl, (refl, tt)))), (refl, (refl, (refl, (refl, tt)))), refl);
      token_plain = ((refl, (refl, (refl, tt))), (refl, (refl, (refl, tt))));
      end_plain = ((refl, (refl, (refl, (refl, (refl, (refl, tt)))))), refl);
    },
    tt,
  ),
)

entries-manifest_example :
    entries "SN-5:tok,SN-6:tok:Beta:2"
    ≡ some (record { serial = "SN-5"; token = "tok"; model = "Alpha Wheeled" })
      ∷ some (record { serial = "SN-6"; token = "tok"; model = "Beta:2" })
      ∷ []
entries-manifest_example = entries-manifest lines lines-AreLines

start_store_keeps_example :
    (find entry_serial "SN-9" (start_store (some "SN-9:new") registry).1.tables.factory_manifest
      ≡ some (entry "SN-9" (some 5)))
    × (find entry_serial "SN-9"
          (durable (start_store (some "SN-9:new") registry).1).factory_manifest
        ≡ some (entry "SN-9" (some 5)))
unfolding find
start_store_keeps_example =
    start_store_keeps "SN-9" (entry "SN-9" (some 5)) (some "SN-9:new") registry refl refl
