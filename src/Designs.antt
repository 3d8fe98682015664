-- ===== src/Designs.antt =====
-- engine/design_contract.py and engine/contract_checker.py: the blueprint of a build, and the check
-- of what was built against it.
pub mod Stored
pub mod Contract
pub mod Clear
pub mod Valid
pub mod Checked
pub mod Compliance
pub mod Compliant
pub mod Seen
pub mod Passed
