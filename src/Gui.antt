-- ===== src/Gui.antt =====
-- AMSServer/src/MFCLoginGUI.cpp, MFCMainGUI.cpp and MFCAPP.cpp: the dialogs. MFC calls their handlers;
-- a window that has ended takes no more of them.
pub mod Login
pub mod Main
pub mod Session
pub mod Consistent
pub mod Submit
