-- ===== src/Validation.antt =====
-- zerg/validation.py: checks of a task graph. TaskId is about the format of a task ID; Ownership
-- and Dependencies read the tasks of a graph that passed the schema check, so that each has an ID
-- and a level.
pub mod TaskId
pub mod Ownership
pub mod Dependencies
pub mod Fuel
pub mod Layered
pub mod Acyclic
mod Tests
use zerg.Common.{ℕ, Option, List, String}

-- The fields of a task that the checks and the parser read; a missing list is empty.
pub record GraphTask : Type 0 where
  pub id : String
  pub level : ℕ
  pub dependencies : List String
  pub create : List String
  pub modify : List String
  pub read : List String
  pub estimate_minutes : Option ℕ
