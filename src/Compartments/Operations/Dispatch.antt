-- ===== src/Compartments/Operations/Dispatch.antt =====
-- Which action an operation of each kind runs, and how that ends.
use quadletman.Prelude.{
  false, ◌++◌, one_of, any, List, [], ◌∷◌, if◌then◌else◌, ◌≡◌, refl, codes, ◌∙◌, ap, arith, Text,
  text_eq, is_empty,
}
use quadletman.Compartments.Operations.{
  Status, completed, failed, Result, listed, error, World, Attempt, ContainerId, accepted, refused,
  returned, raised, Actions, no_errors, on_container, attempt,
}

-- The kinds of operations, and what says that a text names one.
pub data Kind : Type 0 where
  starting stopping restarting resyncing starting_container stopping_container unknown : Kind

abbrev pub known_types : List Text
known_types =
    codes "start"
    ∷ codes "stop"
    ∷ codes "restart"
    ∷ codes "resync"
    ∷ codes "start_container"
    ∷ codes "stop_container"
    ∷ []

abbrev pub IsNamed : Kind → Text → Type 0
IsNamed starting t = t ≡ codes "start"
IsNamed stopping t = t ≡ codes "stop"
IsNamed restarting t = t ≡ codes "restart"
IsNamed resyncing t = t ≡ codes "resync"
IsNamed starting_container t = t ≡ codes "start_container"
IsNamed stopping_container t = t ≡ codes "stop_container"
IsNamed unknown t = one_of t known_types ≡ false

-- The status and the result of an action whose errors are listed, and of one of which only an
-- exception counts.
abbrev pub by_errors : Attempt → Status × Result
by_errors (returned []) = (completed, listed [])
by_errors (returned (e ∷ errors)) = (failed, listed (e ∷ errors))
by_errors (raised e) = (failed, error e)

abbrev pub by_exception : Attempt → Status × Result
by_exception (returned errors) = (completed, listed [])
by_exception (raised e) = (failed, error e)

-- an action on the container of the payload
abbrev pub by_container : ContainerId → (Text → Attempt) → Status × Result
by_container (refused e) act = (failed, error e)
by_container (accepted c) act = by_exception (act c)

-- How an operation of each kind ends that is called in the state `w`.
abbrev pub end_of : Actions → Kind → Text → Text → World → Status × Result
end_of acts starting op_type payload w = by_errors (acts.start_compartment w)
end_of acts stopping op_type payload w = by_errors (acts.stop_compartment w)
end_of acts restarting op_type payload w = by_errors (acts.restart_compartment w)
end_of acts resyncing op_type payload w = by_exception (acts.resync_compartment w)
end_of acts starting_container op_type payload w =
    by_container (acts.container_id payload) (λ c. acts.start_container c w)
end_of acts stopping_container op_type payload w =
    by_container (acts.container_id payload) (λ c. acts.stop_container c w)
end_of acts unknown op_type payload w =
    (failed, listed ((codes "Unknown operation type: " ++ op_type) ∷ []))

unfoldable pub attempted : Attempt → Status × Result
attempted (returned errors) = (if is_empty errors then completed else failed, listed errors)
attempted (raised e) = (failed, error e)

attempted-by_errors : (a : Attempt) → attempted a ≡ by_errors a
unfolding attempted is_empty
attempted-by_errors (returned []) = refl
attempted-by_errors (returned (e ∷ errors)) = refl
attempted-by_errors (raised e) = refl

attempted-by_exception : (a : Attempt) → attempted (no_errors a) ≡ by_exception a
unfolding attempted no_errors is_empty
attempted-by_exception (returned errors) = refl
attempted-by_exception (raised e) = refl

attempted-by_container :
    (o : ContainerId) (act : Text → World → Attempt) (w : World)
    → attempted (on_container o act w) ≡ by_container o (λ c. act c w)
unfolding on_container attempted
attempted-by_container (refused e) act w = refl
attempted-by_container (accepted c) act w = attempted-by_exception (act c w)

attempt-unknown :
    (acts : Actions) (op_type payload : Text) (w : World)
    → one_of op_type known_types ≡ false
    → attempt acts op_type payload w ≡ returned ((codes "Unknown operation type: " ++ op_type) ∷ [])
unfolding attempt one_of any
attempt-unknown acts op_type payload w e = ground (arith, e)

-- the dispatch, for each kind
pub attempted-attempt :
    (acts : Actions) (kind : Kind) (op_type payload : Text) (w : World)
    → IsNamed kind op_type
    → attempted (attempt acts op_type payload w) ≡ end_of acts kind op_type payload w
unfolding attempt text_eq
attempted-attempt acts starting op_type payload w e =
    ap (λ (t : Text). attempted (attempt acts t payload w)) e
    ∙ attempted-by_errors (acts.start_compartment w)
attempted-attempt acts stopping op_type payload w e =
    ap (λ (t : Text). attempted (attempt acts t payload w)) e
    ∙ attempted-by_errors (acts.stop_compartment w)
attempted-attempt acts restarting op_type payload w e =
    ap (λ (t : Text). attempted (attempt acts t payload w)) e
    ∙ attempted-by_errors (acts.restart_compartment w)
attempted-attempt acts resyncing op_type payload w e =
    ap (λ (t : Text). attempted (attempt acts t payload w)) e
    ∙ attempted-by_exception (acts.resync_compartment w)
attempted-attempt acts starting_container op_type payload w e =
    ap (λ (t : Text). attempted (attempt acts t payload w)) e
    ∙ attempted-by_container (acts.container_id payload) acts.start_container w
attempted-attempt acts stopping_container op_type payload w e =
    ap (λ (t : Text). attempted (attempt acts t payload w)) e
    ∙ attempted-by_container (acts.container_id payload) acts.stop_container w
attempted-attempt acts unknown op_type payload w e =
    ap attempted (attempt-unknown acts op_type payload w e)
    ∙ attempted-by_errors (returned ((codes "Unknown operation type: " ++ op_type) ∷ []))
