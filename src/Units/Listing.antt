-- ===== src/Units/Listing.antt =====
-- Creating, finding and listing units where no statement fails.
use real_estate_multi_tenant.Prelude.{suc, String, [], ◌∷◌, ◌++◌}
use real_estate_multi_tenant.Db.{UnitRow, Table, Db, units}
use real_estate_multi_tenant.Db.Healthy.{tick, Healthy}
use real_estate_multi_tenant.Paging.Laws
use real_estate_multi_tenant.Units.Dto.{CreateUnitBody}
use real_estate_multi_tenant.Units.Repository
use real_estate_multi_tenant.Units.Abstract.{requested}
use real_estate_multi_tenant.Units.Service

module _ (body : CreateUnitBody) (schema : String) (s : Db) (t : Table UnitRow) where
  abbrev pub new_unit : UnitRow
  new_unit = requested body t.next (s.time (suc s.statements))

  abbrev pub created : Db
  created =
      units.write schema (record { rows = t.rows ++ new_unit ∷ []; next = suc t.next }) (tick s)
