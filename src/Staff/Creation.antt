-- ===== src/Staff/Creation.antt =====
-- What a creation of a driver which fails leaves, by Staff/Drivers.
use school_van_tracking_saa.Prelude.{
  ℕ, ◌≡◌, ◌>>◌, refl, inl, inr, none, Prisma, err, Exception, arith, Result-cases, Option-cases,
  not, ◌&&◌,
}
use school_van_tracking_saa.Schema.{AuthUser, RoleCode}
use school_van_tracking_saa.Redis.{Redis, Value}
use school_van_tracking_saa.Tenant.Context.{resolve_school_id}
use school_van_tracking_saa.Subscription.Store.{Platform}
use school_van_tracking_saa.Subscription.Service.{drivers, assert_within_limits}
use school_van_tracking_saa.Subscription.Kept.{limits-Keeps}
use school_van_tracking_saa.Staff.Office.{Office, new_user, create_account, has_email, on_tables}
use school_van_tracking_saa.Staff.Drivers.{
  CreateDriverDto, NewIds, has_license, new_driver, create_driver, create,
}

-- Users, roles, assignments and the tables of the fleet are those of before.
abbrev pub Undone : {redis : Redis Value} → Office redis → Office redis → Type 0
Undone o o' =
    (o'.users ≡ o.users)
    × (o'.roles ≡ o.roles)
    × (o'.assignments ≡ o.assignments)
    × (o'.platform.fleet ≡ o.platform.fleet)

-- A step after which only the cache of the platform may differ.
kept-Undone :
    {redis : Redis Value} (o o' : Office redis) (p : Platform redis)
    → p.fleet ≡ o.platform.fleet
    → o' ≡ record o { platform = p }
    → Undone o o'
kept-Undone o o' p kept e = rw e (refl, refl, refl, kept)

module _ (prisma : Prisma) {redis : Redis Value} (lower hash_password : ℕ → ℕ) where
  -- A creation of a driver that fails, at whichever step, leaves no account and no driver behind:
  -- users, roles, assignments and the tables of the fleet are those of before.
  pub create-Undone :
      (now : ℕ) (ids : NewIds) (user : AuthUser) (dto : CreateDriverDto) (e : Exception)
      (o : Office redis)
      → (create prisma lower hash_password now ids user dto o).0 ≡ err e
      → Undone o (create prisma lower hash_password now ids user dto o).1
  unfolding create
  create-Undone now ids user dto e o h =
      let o' = (create prisma lower hash_password now ids user dto o).1 in
      elim (Result-cases (resolve_school_id user none)) [
        | inr (e', r) ↦ kept-Undone o o' o.platform refl (ground arith)
        | inl (school, r) ↦
            let kept = limits-Keeps prisma now school drivers o.platform in
            let p = (assert_within_limits prisma now school drivers o.platform).1 in
            elim (Result-cases (assert_within_limits prisma now school drivers o.platform).0) [
              | inr (e', full) ↦ kept-Undone o o' p kept (ground arith)
              | inl (u, within) ↦
                  elim (Option-cases (
                    prisma.find_first
                      (λ u. has_email school (lower dto.email) u && not u.is_deleted) o.users)) [
                        | inr (x, taken) ↦ kept-Undone o o' p kept (ground arith)
                        | inl free ↦
                            elim (Option-cases (
                              prisma.find_first (has_license school dto.license_number)
                                o.platform.fleet.drivers)) [
                                  | inr (x, taken) ↦ kept-Undone o o' p kept (ground arith)
                                  | inl new ↦
                                      let o1 : Office redis = record o { platform = p } in
                                      let steps =
                                        create_account prisma school RoleCode.driver (
                                          new_user ids.user_id school (lower dto.email)
                                            (hash_password dto.password))
                                        >> on_tables (create_driver (new_driver ids school dto)) in
                                      elim (Result-cases (steps o1).0) [
                                        | inl (y, fine) ↦ absurd (ground arith)
                                        | inr (e', bad) ↦ kept-Undone o o' p kept (ground arith)
                                      ]
                                ]
                      ]
            ]
      ]
