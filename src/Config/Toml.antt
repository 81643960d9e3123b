-- ===== src/Config/Toml.antt =====
-- The documents of toml++ that the configuration is read from: tables, arrays and values.
use roq_fix_proxy.Prelude.Text.{Text}

-- A value that is a string, or one of another type as it is written.
pub data Scalar : Type 0 where
  string other : Text → Scalar

mutual
  pub data Node : Type 0 where
    value : Scalar → Node
    array : Nodes → Node
    table : Table → Node

  pub data Nodes : Type 0 where
    none : Nodes
    more : Node → Nodes → Nodes

  pub data Table : Type 0 where
    empty : Table
    entry : Text → Node → Table → Table
