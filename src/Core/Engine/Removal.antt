-- ===== src/Core/Engine/Removal.antt =====
-- What the removal of a pool leaves.
use unigateway.Prelude.Text.{Text}
use unigateway.Prelude.Dict.{Dict}
