-- ===== src/Tests/Reconcile.antt =====
-- The reconciliation at concrete inputs.
use mathlib.Core.List.{Memᴰ}
use django_ansible_base.Base.{
  String, ℕ, Bool, Option, ◌≡◌, refl, if◌then◌else◌, ◌==◌, nat_eq, true, false, none, some, List,
  [], ◌∷◌,
}
use django_ansible_base.Authentication.RoleMapping.{RoleMapping}
use django_ansible_base.Authentication.Reconcile.{
  Entry, remove, cache_existing, organization, RoleDefinition, Assignment, number, Types,
  get_content_type_id, get_object_id,
}
use django_ansible_base.Authentication.Reconcile.User.{
  give, take, Directory, mentions, record_mentions, manage_permissions,
}
use django_ansible_base.Authentication.Reconcile.Laws.{held, final_cache}
use django_ansible_base.Authentication.Reconcile.Objects.{
  Fits, on_object, ActsAt, apply_permission-ActsAt,
}
use django_ansible_base.Authentication.Reconcile.Outcome.{entry_of, Settles}

abbrev admin : RoleDefinition
admin = record { id = 1; name = "Admin" }

abbrev member : RoleDefinition
member = record { id = 2; name = "Member" }

abbrev types : Types
types = record { organization_type = 10; team_type = 11 }

abbrev directory : Directory
directory = record {
  find_organization = λ name. elim name [ none ↦ none | some s ↦ some 7 ];
  find_team = λ org name. none;
}

-- the user is a member and an admin of organization 7
abbrev rows : List Assignment
rows =
    record {
      role = member;
      content_type = some (record { id = 10; service = "shared" });
      object_id = number 7;
      content_object = some (organization 7);
    }
    ∷ record {
      role = admin;
      content_type = some (record { id = 10; service = "shared" });
      object_id = number 7;
      content_object = some (organization 7);
    }
    ∷ []

-- the claims take the membership away and give the role of an auditor on all
abbrev claims : RoleMapping
claims = record {
  system = ("Auditor", true) ∷ [];
  organizations = (some "O", record { roles = ("Member", false) ∷ []; teams = [] }) ∷ [];
}

abbrev auditor : RoleDefinition
auditor = record { id = 3; name = "Auditor" }

actions_run :
    manage_permissions types ("shared" ∷ []) directory (λ s. some auditor) true rows claims
    ≡ take member (some (organization 7))
      ∷ take admin (some (organization 7))
      ∷ give auditor none
      ∷ []
unfolding manage_permissions
actions_run = refl

abbrev name_of : ℕ → String
name_of id = if id == 1 then "Admin" else "Member"

abbrev was_held : String → Option ℕ → Option ℕ → Bool
was_held r c o = held ("shared" ∷ []) rows r c o

abbrev SettlesHere : String → Option ℕ → Option ℕ → Bool → Type 0
SettlesHere r c o = Settles types ("shared" ∷ []) directory true rows claims r c o (was_held r c o)

fits :
    (rd : RoleDefinition)
    → Fits types (record {
      role = rd;
      content_type = some (record { id = 10; service = "shared" });
      object_id = number 7;
      content_object = some (organization 7);
    })
unfolding get_content_type_id get_object_id
fits rd = on_object (record { id = 10; service = "shared" }) 7 refl refl (refl, refl)

abbrev removal : Entry
removal = record { object = some (organization 7); status = remove }

removed :
    entry_of "Member"
      (some 10)
      (some 7)
      (final_cache types ("shared" ∷ []) directory true rows claims)
    ≡ some removal
unfolding mentions cache_existing record_mentions
removed = refl

apply_permission-ActsAt_example :
    ActsAt types member (some 10) (some 7) (take member (some (organization 7)))
apply_permission-ActsAt_example =
    apply_permission-ActsAt types ("shared" ∷ []) directory true rows claims "Member" (some 10)
      (some 7) member removal (take member (some (organization 7))) (fits member, (fits admin, tt))
      removed (Memᴰ.head refl)
