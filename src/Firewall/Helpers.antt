-- ===== src/Firewall/Helpers.antt =====
-- `src/firewall/varktables/helpers.rs`. The `debug_*` functions only log.
use netavark.Prelude.{String, ◌<>◌, Bool, contains, if◌then◌else◌}
use netavark.Error.{NetavarkError, message}
use netavark.Action.{Action, pure, ◌>>=◌, ask, change}
use netavark.Firewall.Tables.{Iptables, Place}

abbrev pub append_error : Place → String → String → NetavarkError
append_error p rule e =
    message ("unable to append rule '" <> (rule <> ("' to table '" <> (p.table <> ("': " <> e)))))

abbrev pub delete_error : Place → String → String → NetavarkError
delete_error p rule e =
    message ("failed to remove rule '" <> (rule <> ("' from table '" <> (p.chain <> ("': " <> e)))))

module _ (T : Iptables) where
  -- Append a rule unless the chain has it.
  unfoldable pub append_unique : Place → String → Action T.State Unit
  append_unique p rule = do
    exists ← ask message (T.exists p rule)
    if exists then pure tt else change (append_error p rule) (T.append p rule)

  -- The source lists the chains of the table and looks for the name.
  unfoldable pub chain_exists : Place → Action T.State Bool
  chain_exists p = do
    names ← ask message (T.list_chains p.driver p.table)
    pure (contains p.chain names)

  -- Make a chain unless the table has it.
  unfoldable pub add_chain_unique : Place → Action T.State Unit
  unfolding chain_exists
  add_chain_unique p = do
    exists ← chain_exists p
    if exists then pure tt else change message (T.new_chain p)

  -- Remove a rule if the chain has it.
  unfoldable pub remove_if_rule_exists : Place → String → Action T.State Unit
  remove_if_rule_exists p rule = do
    exists ← ask message (T.exists p rule)
    if exists then change (delete_error p rule) (T.delete p rule) else pure tt
