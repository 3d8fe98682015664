-- ===== src/Sandboxes/Confined.antt =====
-- engine/sandbox.py, create_sandbox: what a sandbox leaves in the file system.
use autonomy_engine.Base.Dict.{Dict}
use autonomy_engine.World.{World}
