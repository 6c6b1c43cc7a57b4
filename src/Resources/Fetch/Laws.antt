-- ===== src/Resources/Fetch/Laws.antt =====
-- The assignments that `RemoteAssignmentFetcher.fetch` of
-- ansible_base/resource_registry/tasks/sync.py returns, against what the server lists.
use django_ansible_base.Base.{
  ℕ, zero, suc, ◌+◌, ◌≤◌, ◌<◌, ◌≡◌, beq→eq, refl, sym, ap, ◌∙◌, subst, String, true, false, ◌&&◌,
  ◌||◌, Option, none, some, List, [], ◌∷◌, ◌++◌, ◌==◌, nat_eq, string_eq, Bool-cases, inl, inr,
  contains, contains-append, if◌then◌else◌, arith,
}
use django_ansible_base.Resources.Fetch.{
  AssignmentTuple, tuple_eq, Remote, Page, Added, tuple_of, add_one, add_named, add_results,
  Endpoint, read, turn, paginate, RemoteAssignmentResult, fetched, fetched_teams, after_users,
  fetch,
}

some_injective {ℓ} : {A : Type ℓ} {a b : A} → some a ≡ some b → a ≡ b
some_injective {A} {a} p = ap (λ m. elim m [ some x ↦ x | none ↦ a ]) p

-- What the server lists from a page on: the results of the pages up to the first without a next.
pub data Listed (list_fn : Endpoint) : ℕ → List Remote → Type 0 where
  last :
      {page : ℕ} {p : Page}
      → read (list_fn page) ≡ some p
      → p.has_next ≡ false
      → Listed list_fn page p.results
  more :
      {page : ℕ} {p : Page} {rest : List Remote}
      → read (list_fn page) ≡ some p
      → p.has_next ≡ true
      → Listed list_fn (suc page) rest
      → Listed list_fn page (p.results ++ rest)

abbrev pub one_tuple : Option AssignmentTuple → List AssignmentTuple
one_tuple none = []
one_tuple (some tuple) = tuple ∷ []

abbrev pub known_one : List String → String → Remote → Option String → List AssignmentTuple
known_one role_names kind a none = []
known_one role_names kind a (some name) =
    if contains name role_names then one_tuple (tuple_of kind name a) else []

-- the tuples of the assignments of roles that exist here
abbrev pub known : List String → String → List Remote → List AssignmentTuple
known role_names kind [] = []
known role_names kind (a ∷ rest) =
    known_one role_names kind a a.role_definition ++ known role_names kind rest

known-append :
    (names : List String) (kind : String) (xs ys : List Remote) (t : AssignmentTuple)
    → contains t (known names kind (xs ++ ys))
      ≡ (contains t (known names kind xs) || contains t (known names kind ys))
known-append names kind [] ys t = refl
known-append names kind (x ∷ xs) ys t =
    let one = known_one names kind x x.role_definition in
    ground (
      arith,
      known-append names kind xs ys t,
      contains-append t one (known names kind xs),
      contains-append t one (known names kind (xs ++ ys)),
    )

-- a step that raised nothing added what is known of its assignments
abbrev Adds : List AssignmentTuple → List AssignmentTuple → Added → Type 0
Adds found new step =
    step.0 ≡ true → (t : AssignmentTuple) → contains t step.1 ≡ (contains t found || contains t new)

add_one-Adds :
    (found : List AssignmentTuple) (x : Option AssignmentTuple)
    → Adds found (one_tuple x) (add_one found x)
add_one-Adds found none e t = absurd (cc)
add_one-Adds found (some tuple) e t = ground (arith)

add_named-Adds :
    (names : List String) (kind : String) (a : Remote) (found : List AssignmentTuple)
    (name : Option String)
    → Adds found (known_one names kind a name) (add_named names kind a found name)
add_named-Adds names kind a found none = λ e t. absurd (cc e)
add_named-Adds names kind a found (some name) = elim (Bool-cases (contains name names)) [
  | inl q ↦ rw q (add_one-Adds found (tuple_of kind name a))
  | inr q ↦ rw q (λ e t. ground arith)
]

add_results-Adds :
    (names : List String) (kind : String) (results : List Remote) (found : List AssignmentTuple)
    → Adds found (known names kind results) (add_results names kind results found)
add_results-Adds names kind [] found = λ e t. ground arith
add_results-Adds names kind (a ∷ rest) found =
    let step = add_named names kind a found a.role_definition in
    let one = known_one names kind a a.role_definition in
    elim (Bool-cases step.0) [
      | inl q ↦ rw q (λ e t. ground (
        arith,
        add_results-Adds names kind rest step.1 e t,
        add_named-Adds names kind a found a.role_definition q t,
        contains-append t one (known names kind rest),
      ))
      | inr q ↦ rw q (λ e. absurd (cc e))
    ]

-- what a whole run of pages means
abbrev Complete :
    List String → String → Endpoint → ℕ → List AssignmentTuple → List AssignmentTuple → Type 0
Complete names kind list_fn page found out =
    (all : List Remote) × Listed list_fn page all
    × ((t : AssignmentTuple)
        → contains t out ≡ (contains t found || contains t (known names kind all)))

turn-Listed :
    (names : List String) (kind : String) (list_fn : Endpoint) (page : ℕ)
    (next : List AssignmentTuple → Option Added) (found out : List AssignmentTuple)
    (x : Option Page)
    → read (list_fn page) ≡ x
    → ((found' : List AssignmentTuple)
        → next found' ≡ some (true, out)
        → Complete names kind list_fn (suc page) found' out)
    → turn names kind next found x ≡ some (true, out)
    → Complete names kind list_fn page found out
turn-Listed names kind list_fn page next found out none q h e = absurd (cc e)
turn-Listed names kind list_fn page next found out (some p) q h e =
    let step = add_results names kind p.results found in
    elim (Bool-cases (step.0 && p.has_next)) [
      | inl b ↦
          let e2 = rw b at e in
          let (rest, listed, g) = h step.1 e2 in
          (
            p.results ++ rest,
            more q (ground arith) listed,
            λ t.
                g t
                ∙ ground (
                  arith,
                  add_results-Adds names kind p.results found (ground arith) t,
                  known-append names kind p.results rest t,
                ),
          )
      | inr b ↦
          let e2 = rw b at e in
          let done : step ≡ (true, out) = some_injective e2 in
          let fine = ap (λ x. x.0) done in
          (
            p.results,
            last q (ground arith),
            λ t.
                ap (λ x. contains t x.1) (sym done)
                ∙ add_results-Adds names kind p.results found fine t,
          )
    ]

paginate-Listed :
    (names : List String) (kind : String) (list_fn : Endpoint) (fuel page : ℕ)
    (found out : List AssignmentTuple)
    → paginate names kind list_fn fuel page found ≡ some (true, out)
    → Complete names kind list_fn page found out
unfolding paginate
paginate-Listed names kind list_fn zero page found out e = absurd (cc e)
paginate-Listed names kind list_fn (suc fuel) page found out e =
    turn-Listed names kind list_fn page (paginate names kind list_fn fuel (suc page)) found out
      (read (list_fn page)) refl
      (λ found' h. paginate-Listed names kind list_fn fuel (suc page) found' out h) e

-- A page that the fetch does not go beyond.
abbrev pub IsLast : Endpoint → ℕ → Type 0
IsLast list_fn page = (p : Page) → read (list_fn page) ≡ some p → p.has_next ≡ false

turn-some :
    (names : List String) (kind : String) (next : List AssignmentTuple → Option Added)
    (found : List AssignmentTuple) (x : Option Page)
    → ((p : Page)
        → x ≡ some p
        → p.has_next ≡ true
        → (found' : List AssignmentTuple) → (added : Added) × (next found' ≡ some added))
    → (added : Added) × (turn names kind next found x ≡ some added)
turn-some names kind next found none h = ((false, found), refl)
turn-some names kind next found (some p) h =
    let step = add_results names kind p.results found in
    elim (Bool-cases (step.0 && p.has_next)) [
      | inl b ↦ rw b (h p refl (ground arith) step.1)
      | inr b ↦ rw b (step, refl)
    ]

-- the fuel is enough if it reaches a last page
paginate-IsLast :
    (names : List String) (kind : String) (list_fn : Endpoint) (end fuel page : ℕ)
    (found : List AssignmentTuple)
    → IsLast list_fn end
    → page ≤ end
    → end < fuel + page
    → (added : Added) × (paginate names kind list_fn fuel page found ≡ some added)
unfolding paginate
paginate-IsLast names kind list_fn end zero page found h below enough = absurd (omega arith)
paginate-IsLast names kind list_fn end (suc fuel) page found h below enough =
    turn-some names kind (paginate names kind list_fn fuel (suc page)) found (read (list_fn page))
      (λ p q e found'. elim (Bool-cases (page == end)) [
        | inl at_end ↦
            let no_more = h p (subst (λ n. read (list_fn n) ≡ some p) (beq→eq page end at_end) q) in
            absurd (cc)
        | inr before ↦
            paginate-IsLast names kind list_fn end fuel (suc page) found' h
              (ground (arith, nat_eq.eqb_iff page end)) (omega (arith, enough))
      ])

fetched_teams-some :
    (x : Option Added)
    → ((added : Added) × (x ≡ some added))
    → (result : RemoteAssignmentResult) × (fetched_teams x ≡ some result)
fetched_teams-some none (added, e) = absurd (cc e)
fetched_teams-some (some added) h = (fetched added, refl)

after_users-some :
    (teams : List AssignmentTuple → Option Added) (x : Option Added)
    → ((added : Added) × (x ≡ some added))
    → ((found : List AssignmentTuple) → (added : Added) × (teams found ≡ some added))
    → (result : RemoteAssignmentResult) × (after_users teams x ≡ some result)
after_users-some teams none (added, e) h = absurd (cc e)
after_users-some teams (some (true, found)) x h = fetched_teams-some (teams found) (h found)
after_users-some teams (some (false, found)) x h = (fetched (false, found), refl)

-- both fetches were complete
abbrev Both : (List AssignmentTuple → Option Added) → Option Added → RemoteAssignmentResult → Type 0
Both teams x result =
    (found : List AssignmentTuple) × (x ≡ some (true, found))
    × (teams found ≡ some (true, result.assignments))

fetched_teams-Both :
    (teams : List AssignmentTuple → Option Added) (found : List AssignmentTuple) (y : Option Added)
    (result : RemoteAssignmentResult)
    → teams found ≡ y
    → fetched_teams y ≡ some result
    → result.is_complete ≡ true
    → Both teams (some (true, found)) result
fetched_teams-Both teams found none result q e c = absurd (cc e)
fetched_teams-Both teams found (some (true, out)) result q e c =
    (found, refl, q ∙ ap (λ x. some (true, x.assignments)) (some_injective e))
fetched_teams-Both teams found (some (false, out)) result q e c =
    let wrong = ap RemoteAssignmentResult.is_complete (some_injective e) in absurd (cc)

after_users-Both :
    (teams : List AssignmentTuple → Option Added) (x : Option Added)
    (result : RemoteAssignmentResult)
    → after_users teams x ≡ some result
    → result.is_complete ≡ true
    → Both teams x result
after_users-Both teams none result e c = absurd (cc e)
after_users-Both teams (some (true, found)) result e c =
    fetched_teams-Both teams found (teams found) result refl e c
after_users-Both teams (some (false, out)) result e c =
    let wrong = ap RemoteAssignmentResult.is_complete (some_injective e) in absurd (cc)

-- If some page of each endpoint has no next page or cannot be read, the fetch ends, for every fuel
-- that is at least the number of such a page.
pub fetch-IsLast :
    (names : List String) (users teams : Endpoint) (user_end team_end fuel : ℕ)
    → IsLast users user_end
    → IsLast teams team_end
    → 1 ≤ user_end
    → 1 ≤ team_end
    → user_end ≤ fuel
    → team_end ≤ fuel
    → (result : RemoteAssignmentResult) × (fetch names users teams fuel ≡ some result)
unfolding fetch
fetch-IsLast names users teams user_end team_end fuel h k a b c d =
    after_users-some (paginate names "team" teams fuel 1) (paginate names "user" users fuel 1 [])
      (paginate-IsLast names "user" users user_end fuel 1 [] h a (omega (arith, c)))
      (λ found. paginate-IsLast names "team" teams team_end fuel 1 found k b (omega (arith, d)))

-- A fetch that says it is complete has read all pages that the server lists, of users and of teams,
-- and its set holds exactly their assignments of the roles that exist here.
pub fetch-Listed :
    (names : List String) (users teams : Endpoint) (fuel : ℕ) (result : RemoteAssignmentResult)
    → fetch names users teams fuel ≡ some result
    → result.is_complete ≡ true
    → (all_users all_teams : List Remote) × Listed users 1 all_users
      × Listed teams 1 all_teams
      × ((t : AssignmentTuple)
          → contains t result.assignments ≡ (
              contains t (known names "user" all_users)
              || contains t (known names "team" all_teams)))
unfolding fetch
fetch-Listed names users teams fuel result e complete =
    let (found, f, g) =
      after_users-Both (paginate names "team" teams fuel 1) (paginate names "user" users fuel 1 [])
        result e complete in
    let (all_users, listed, h) = paginate-Listed names "user" users fuel 1 [] found f in
    let (all_teams, listed', h') =
      paginate-Listed names "team" teams fuel 1 found result.assignments g in
    (all_users, all_teams, listed, listed', λ t. ground (arith, h t, h' t))
