-- ===== src/Dfs/Position.antt =====
-- Reads and writes of a file return, and move its position by what they return.
use destin_x.Dfs.Lookup.{Dfs}
use destin_x.Dfs.Files.{Lookup}
