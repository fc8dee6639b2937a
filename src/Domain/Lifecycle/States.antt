-- ===== src/Domain/Lifecycle/States.antt =====
-- The working states of lifecycle.py and the table `_ALLOWED_NEXT`.
use alicerce.Prelude.{Bool, true, false, List, [], ◌∷◌, Eq}

pub data LifecycleState : Type 0 where
  contract_bound workspace_prepared building verifying : LifecycleState
  deciding review_pending completed : LifecycleState

unfoldable pub LifecycleState-discrete : Discrete LifecycleState
LifecycleState-discrete = hlevel

instance abbrev pub lifecycle_state_eq : Eq LifecycleState
lifecycle_state_eq = record { dec = LifecycleState-discrete }

-- `state is LifecycleState.COMPLETED`
unfoldable pub is_completed : LifecycleState → Bool
is_completed completed = true
is_completed _ = false

-- `_ALLOWED_NEXT`
unfoldable pub allowed_next : LifecycleState → List LifecycleState
allowed_next contract_bound = workspace_prepared ∷ completed ∷ []
allowed_next workspace_prepared = building ∷ completed ∷ []
allowed_next building = verifying ∷ completed ∷ []
allowed_next verifying = deciding ∷ completed ∷ []
allowed_next deciding = review_pending ∷ completed ∷ []
allowed_next review_pending = completed ∷ []
allowed_next completed = []
