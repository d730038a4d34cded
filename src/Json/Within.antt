-- ===== src/Json/Within.antt =====
-- The budgets that a parsed value of internal/jsonvalue keeps.
use serpe.Base.{nat_eq, bytes_eq}
use serpe.Json.Ensures.{Ensures}
use serpe.Json.Keeps.{Keeps, Reads}
