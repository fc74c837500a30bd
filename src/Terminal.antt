-- ===== src/Terminal.antt =====
-- The console: src/dev/terminal (vga_text_mode.c, cursor.c, terminal.c) and src/dev/keyboard.
pub mod Vga
pub mod Cursor
pub mod Keys
pub mod Console
pub mod Keyboard
mod Tests
