-- ===== src/Xtask/Check/Outcome.antt =====
-- How the checks of the xtask come out.

use aetheros_rust_project.Prelude.Text.{Text}
