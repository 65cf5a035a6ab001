-- ===== src/Config/Decode.antt =====
-- config/normalize.go: the fields of a devcontainer.json that take several forms.
pub mod Values
pub mod Commands
pub mod MountForms
pub mod Ports
pub mod Printed
mod Samples
