-- ===== src/Keeper/Calls/Finishing.antt =====
-- What a method of keeper/store that answers an action commits: the request has left its initial
-- state, and the result of the action is stored.
pub mod Steps
pub mod Requests
pub mod Results
pub mod Conclusions
pub mod Methods
