-- ===== src/Destination/Constraint.antt =====
-- The constraint of a destination and its errors (src/destination/mod.rs).
use rch_mac.Base.{Option, Text}

pub data Provisioning : Type 0 where
  existing ephemeral : Provisioning

pub record DestinationConstraint : Type 0 where
  pub platform : Text
  pub name : Option Text
  pub os : Option Text
  pub provisioning : Provisioning
  pub original : Text

pub data DestinationError : Type 0 where
  worker_incompatible : (reason : Text) → DestinationError
  invalid_constraint : Text → DestinationError
  missing_field : Text → DestinationError
