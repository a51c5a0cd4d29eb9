-- ===== src/Staff/Parents.antt =====
-- services/api/src/parents/services/parents.service.ts. The relationship is left out; the
-- identifiers of a new user and parent are parameters.
use school_van_tracking_saa.Prelude.{
  ℕ, Bool, true, false, none, some, [], ◌∷◌, ◌++◌, Prisma, Action, pure, throw_if, or_throw, lift,
  modify, find, update, create as create_row, count_rows, ◌>>=◌, ◌>>◌, ◌==◌, ltb, not, ◌&&◌,
  conflict, not_found, parent_not_found, parent_has_students,
}
use school_van_tracking_saa.Schema.{
  AuthUser, RoleCode, Parent, Student, parents_table, students_table, AuditAction, AuditEntry,
  EntityType, log,
}
use school_van_tracking_saa.Redis.{Redis, Value}
use school_van_tracking_saa.Tenant.Context.{resolve_school_id}
use school_van_tracking_saa.Fleet.Assignment.{is_parent}
use school_van_tracking_saa.Staff.Office.{
  Office, office_users, on_tables, new_user, create_account, transaction, deactivate, check_email,
}
use school_van_tracking_saa.Staff.Drivers.{NewIds}

pub record CreateParentDto : Type 0 where
  pub email : ℕ
  pub password : ℕ

abbrev parent_entry : AuditAction → AuthUser → ℕ → ℕ → AuditEntry
parent_entry action user school parent = record {
  school_id = some school;
  actor_user_id = user.id;
  action = action;
  entity_type = EntityType.parent;
  entity_id = some parent;
}

abbrev new_parent : NewIds → ℕ → Parent
new_parent ids school = record {
  id = ids.profile_id;
  school_id = school;
  user_id = ids.user_id;
  is_deleted = false;
}

-- `{ parentId: id, deletedAt: null }`
abbrev is_child_of : ℕ → Student → Bool
is_child_of parent s = (s.parent_id == parent) && not s.is_deleted

module _ (prisma : Prisma) {redis : Redis Value} where
  unfoldable pub get_parent : AuthUser → ℕ → Action (Office redis) Parent
  get_parent user id = do
    school ← lift (resolve_school_id user none)
    parent ← on_tables (find parents_table prisma (is_parent school id))
    or_throw parent (not_found parent_not_found)

  -- The result is the new parent's identifier.
  unfoldable pub create :
      (ℕ → ℕ) → (ℕ → ℕ) → NewIds → AuthUser → CreateParentDto → Action (Office redis) ℕ
  create lower hash_password ids user dto = do
    school ← lift (resolve_school_id user none)
    check_email prisma school (lower dto.email)
    transaction (do
      create_account prisma school RoleCode.parent
          (new_user ids.user_id school (lower dto.email) (hash_password dto.password))
      on_tables (create_row parents_table (new_parent ids school))
      modify (λ (o : Office redis). record o {
        preferences = o.preferences ++ (ids.user_id, true) ∷ [];
      }))
    on_tables (log (parent_entry AuditAction.create user school ids.profile_id))
    pure ids.profile_id

  -- The names and the relationship, which the rows here leave out, are all that changes.
  unfoldable update_parent : AuthUser → ℕ → Action (Office redis) (Unit {0})
  update_parent user id = do
    school ← lift (resolve_school_id user none)
    parent ← get_parent user id
    update office_users (λ u. u.id == parent.user_id) (λ u. u)
    on_tables (update parents_table (λ x. x.id == id) (λ x. x))
    on_tables (log (parent_entry AuditAction.update user school id))

  unfoldable pub remove : AuthUser → ℕ → Action (Office redis) (Unit {0})
  remove user id = do
    school ← lift (resolve_school_id user none)
    parent ← get_parent user id
    child_count ← on_tables (count_rows students_table (is_child_of id))
    throw_if (ltb 0 child_count) (conflict parent_has_students)
    on_tables (update parents_table (λ x. x.id == id) (λ x. record x { is_deleted = true }))
    deactivate parent.user_id
    on_tables (log (parent_entry AuditAction.delete user school id))
