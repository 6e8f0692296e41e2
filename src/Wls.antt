-- ===== src/Wls.antt =====
-- wls_federate/state_estimator_federate.py: the state estimator by weighted least squares.
pub mod Arrays
pub mod Model
pub mod Estimator
pub mod Federate
pub mod Taken
pub mod Marked
pub mod Shape
pub mod Jacobian
pub mod Posed
pub mod Aligned
pub mod Residuals
pub mod Estimated
pub mod Handled
pub mod Published
mod Tests
