-- ===== src/LrSgd.antt =====
-- lr_sgd/Source.cpp: logistic regression by stochastic gradient descent with a cumulative L1
-- penalty. Lines reads the training data, Weights has the maps from features to numbers, Updates the
-- gradient of a batch, the penalty and the loss, and Train the training loop.
pub mod Lines
pub mod Weights
pub mod Updates
pub mod Train
pub mod Features
pub mod Batches
pub mod Places
pub mod Ends
pub mod Faults
pub mod Outcome
pub mod Signs
