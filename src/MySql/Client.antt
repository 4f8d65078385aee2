-- ===== src/MySql/Client.antt =====
-- What the program uses of the MySQL client library: a connection, which each call may change, and
-- stored results. The program reads a result's rows in order and counts them.
use amsserver.Base.{ℕ, Bool, List, Option, Bytes}

-- A cell is NULL or a text; a column has a name.
pub record ResultSet : Type 0 where
  pub names : List Bytes
  pub rows : List (List (Option Bytes))

pub record Mysql : Type 1 where
  pub Connection : Type 0
  pub mysql_init : Connection
  -- Whether the pointer that mysql_real_connect returns is not NULL.
  pub mysql_real_connect : Connection → Connection × Bool
  -- These two return 0 on success.
  pub mysql_real_query : Connection → Bytes → Connection × ℕ
  pub mysql_select_db : Connection → Bytes → Connection × ℕ
  -- `none` is NULL.
  pub mysql_store_result : Connection → Connection × Option ResultSet
