-- ===== src/Domain/Contracts.antt =====
-- src/alicerce/domain/contracts.py passes on names of the package `loop_schemas`, which is not part
-- of the repository: what the program uses of them is a parameter of the model.
use alicerce.Prelude.{List, Text}

-- The constant FINAL_STATES.
pub record FinalStates : Type 0 where
  pub values : List Text

-- The fields of the class Actions that the program reads.
pub record Actions : Type 0 where
  pub allowed : List Text
  pub denied : List Text
