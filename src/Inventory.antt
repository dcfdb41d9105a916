-- ===== src/Inventory.antt =====
-- src/inventory/mod.rs: the inventory of workers, its validation, and the lists made of it. Reading
-- the file and parsing TOML are left out; `alphanumeric` is `char::is_alphanumeric`.
pub mod Laws
use rch_mac.Base.{
  ℕ, ◌==◌, Ordering, Bool, true, false, ◌||◌, not, Option, none, some, if◌then◌else◌, Text, text,
  text_eq, contains, Result, ok, err, ◌>>=◌, List, [], ◌∷◌, filter, find?, all, is_empty, length,
}
use rch_mac.Base.Compare.{compare_text, then_with}
use rch_mac.Base.Sort.{sort_by}
use rch_mac.Base.Max.{ℤ, compare_ℤ}

pub record WorkerEntry : Type 0 where
  pub name : Text
  pub host : Text
  pub port : ℕ
  pub user : Text
  pub tags : List Text
  pub ssh_key_path : Option Text
  pub priority : ℤ
  pub known_host_fingerprint : Option Text
  pub attestation_pubkey_fingerprint : Option Text

pub record WorkerInventory : Type 0 where
  pub schema_version : ℕ
  pub workers : List WorkerEntry

pub data InventoryError : Type 0 where
  duplicate_name : Text → InventoryError
  missing_field : (name field : Text) → InventoryError
  invalid_value : (name field reason : Text) → InventoryError

-- `WorkerEntry::has_tags`
unfoldable pub has_tags : WorkerEntry → List Text → Bool
has_tags w required = all (contains w.tags) required

abbrev check : Bool → InventoryError → Result (Unit {0}) InventoryError
check bad e = if bad then err e else ok tt

-- The first loop, with the names seen so far.
unfoldable pub check_names : List Text → List WorkerEntry → Result (Unit {0}) InventoryError
check_names seen [] = ok tt
check_names seen (w ∷ ws) =
    let rest = check_names (w.name ∷ seen) ws in
    if contains seen w.name then err (duplicate_name w.name) else rest

module _ (alphanumeric : ℕ → Bool) where
  abbrev pub name_char : ℕ → Bool
  name_char c = alphanumeric c || c == b'-' || c == b'_'

  -- `WorkerEntry::validate`: the checks in their order.
  unfoldable pub validate_entry : WorkerEntry → Result (Unit {0}) InventoryError
  validate_entry w =
      if is_empty w.name
      then err (missing_field (text "(unnamed)") (text "name"))
      else if is_empty w.host
      then err (missing_field w.name (text "host"))
      else if w.port == 0
      then err (invalid_value w.name (text "port") (text "port cannot be 0"))
      else if is_empty w.user
      then err (invalid_value w.name (text "user") (text "user cannot be empty"))
      else if not (all name_char w.name)
      then err (
          invalid_value w.name (text "name")
            (text "name must contain only alphanumeric characters, dashes, and underscores"))
      else ok tt

  unfoldable pub check_entries : List WorkerEntry → Result (Unit {0}) InventoryError
  check_entries [] = ok tt
  check_entries (w ∷ ws) = let rest = check_entries ws in validate_entry w >>= λ _. rest

  unfoldable pub validate : WorkerInventory → Result (Unit {0}) InventoryError
  validate v = check_names [] v.workers >>= λ _. check_entries v.workers

unfoldable pub get_worker : WorkerInventory → Text → Option WorkerEntry
get_worker v name = find? (λ (w : WorkerEntry). text_eq w.name name) v.workers

unfoldable pub filter_by_tags : WorkerInventory → List Text → List WorkerEntry
filter_by_tags v required = filter (λ (w : WorkerEntry). all (contains w.tags) required) v.workers

abbrev pub by_priority : WorkerEntry → WorkerEntry → Ordering
by_priority a b = then_with (compare_ℤ a.priority b.priority) (compare_text a.name b.name)

unfoldable pub sorted_by_priority : WorkerInventory → List WorkerEntry
sorted_by_priority v = sort_by by_priority v.workers
