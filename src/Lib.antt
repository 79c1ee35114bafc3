-- ===== src/Lib.antt =====
-- A verification library for the board support code of three boards: tc275_lite (Infineon
-- TriCore), witte_linum (STM32H7) and esp32p4_ev_function (ESP32-P4). A board's code brings the
-- machine up and runs one server thread for each peripheral; a client calls it by messages of six
-- 32-bit words through the kernel.
--
-- The parts that are modelled, and where:
-- - Base (Tests, Lists, Bits, Word): shared names, lists over the native numbers, bit fields as
--   arithmetic, 32-bit words with their wrap-around.
-- - Kernel: result codes, messages and replies of the kernel's interface.
-- - Wire (Bytes, Pack): the loops that pack bytes into a message's words and read them back, which
--   stand in witte_linum/drivers/dma/src/client.c and server.c.
-- - PsramTune (Fields, Window, Sweep, Choice, Refine): esp32p4_ev_function/board_psram_tune.c.
--   Fields has the values written to registers, Window has find_window, Sweep has the machine and
--   every operation up to board_psram_timing_tune, Choice what the sweeps choose, Refine has
--   board_psram_timing_refine_axi. The definitions keep the functions' names; a loop's body is a
--   definition of its own.
-- - Dma (Slots, Server, Worker, Client, Poll, Load, Transfer, Fill, Rounds, Arm):
--   witte_linum/drivers/dma. Slots has do_open, do_close, do_load, do_arm and do_wait, Server has
--   the dispatcher (serve, one case for each message), Worker has a worker's job and its polling
--   loop, Client has dma_call and the calls above it. Poll, Load and Transfer have theorems on
--   each; Fill, Rounds and Arm on a client's transfer through the dispatcher.
-- - Cache (Linum, P4, Cover, Sync): witte_linum/board_cache.c and
--   esp32p4_ev_function/board_cache.c. Cover is about the first, Sync about the second.
-- - Gdma (Channel, Copy, Server, Client, Receive, Calls, Trip, Beside):
--   esp32p4_ev_function/drivers/gdma_axi/src/server.c and client.c. Channel has hw_channel_open,
--   hw_rx_arm, hw_rx_wait, hw_tx_arm and hw_tx_wait, Copy has hw_memcpy, Server the messages and
--   Client the calls. Receive is about arming and waiting in the server, Calls about the
--   calls through the server, Trip about a receive through both sides, Beside about operations in a
--   row.
-- - Pdma (Channel, Server, Client, Apart, Calls): esp32p4_ev_function/drivers/dma/src/server.c and
--   client.c. Channel has the operations, Server the messages and Client the calls. Apart has
--   theorems on a copy and a receive between one another, Calls on the calls through the server.
-- - Console (Digits, Printf, Server, Client, Buffer, Step, Cut, Decimal, Log, Written,
--   Deliver, Invariant): witte_linum/board_console.c and board_rtt.c. Digits has fmt_u32, fmt_i32,
--   fmt_hex and fmt_str, Printf has board_console_printf up to its write, Server has the messages
--   and the log, Client has console_write and the calls. Buffer, Step and Cut are about the buffer
--   of board_console_printf, Log, Written and Deliver about a text on its way to the log and the
--   channel.
-- - Gpio (Eru, Mask, Routes, Events): tc275_lite/drivers/gpio/src/server.c. Eru has the pins,
--   arming, do_subscribe and a round of the interrupt server; Routes has the invariant, Events
--   theorems on who is signalled.
-- - Twai (Payload, Server, Client, Words, Wires, Taken, Trip, Failure):
--   esp32p4_ev_function/drivers/can/src/server.c and client.c. Payload has the packing loops,
--   Server has hw_send with what it takes in, and the messages, Client the calls. Words is about
--   the packing, Wires and Taken about the controller's data registers, Trip about a frame on its
--   way through both sides, Failure about a send that reports an error.
-- - Serial: what a serial port promises a client that sends one byte at a time, as a record of
--   operations and laws, and what follows for a text.
-- - Usart (Server, Client, Sent, Quiet): witte_linum/drivers/uart/src/server.c and client.c. Sent
--   fills the record of Serial, Quiet is about the interrupt enables.
-- - Asclin (Server, Client, Sent, Baud): tc275_lite/drivers/asclin/src/server.c and client.c. Sent
--   fills the record of Serial, Baud is about the baud rate.
-- - I2c (Server, Client, Queue, Transfer, Receive, Cut):
--   esp32p4_ev_function/drivers/i2c/src/server.c and client.c. Queue and Transfer are about a
--   write, Receive about a read, Cut about a write that is too long for a message.
-- - Fdcan (Server, Client, Memory, Trip): witte_linum/drivers/can/src/server.c and client.c.
--   Memory is about the words of a frame, Trip about a frame on its way through both sides.
-- - Qspi (Server, Client, Popped, Reply, Trip): witte_linum/drivers/qspi/src/server.c and
--   client.c. Popped is about the bytes taken out of the controller, Reply and Trip about a read
--   through both sides.
-- - Pinmux (Server, Client, Trip): esp32p4_ev_function/drivers/pinmux/src/server.c and client.c.
--   Trip is about a configuration through both sides.
-- - Ledc (Hw, Server, Client, Divider, Fit, Range): esp32p4_ev_function/drivers/pwm/src/pwm_hw.c,
--   server.c and client.c, which call the pin multiplexer. Divider is about the timer's divider,
--   Fit and Range about the duties.
-- - Tim (Server, Client, Period, Fits, Valid, Calls): witte_linum/drivers/pwm/src/server.c and
--   client.c. Period is about the prescaler and the reload value, Fits, Valid and Calls about the
--   values that any calls lead to.
-- - Display (Server, Client, Buffers, Present, Torn): witte_linum/drivers/display/src/server.c and
--   client.c. Buffers is about the two buffers, Present about a buffer through both sides, Torn
--   about a flip that fails. The writes of ltdc_hw_init that bring the controller up are one act.
--
-- How the code is read. A word is a natural number below 2 ^ 32 and each operation writes out its
-- wrap-around; a signed argument of an area operation is its 32-bit pattern. What lies outside the
-- sources is a parameter: the registers and the ROM's transactions are a machine with any state,
-- the kernel's wait on a notification is a function from the slot to a result and the slot that
-- the worker left, the answer to a wait for a DMA of the ESP32-P4 is a result and two words of the
-- hardware's, the status words, answers to waits and data registers that a send on the CAN
-- controller reads are a record, so are those of a round on the FDCAN controller, ep_call is a
-- function on the other side's state, SEGGER's trace channel is a record of a state and four
-- operations, and the DMA status register is a value for each poll. A word past the end of a
-- message is read as 0; the code reads such a word only where a message of more than twelve bytes
-- claims to be a load message, and where a write of more than sixteen bytes is sent to the I2C
-- driver of the ESP32-P4.
--
-- A format and a text of the console are their bytes before the null byte. What a message of the
-- console holds after its first word, which the kernel's header decides, is the parameter
-- chunk_max. The calls of the vendor's ERU library are a list of acts in order; the event flags
-- that a round reads are a function. The serial drivers' calls of the vendors' libraries and of
-- the kernel are a list of calls in order, and what a call answers is any function of the calls so
-- far; so are the acts of the I2C driver and what they answer, those of the flash driver and of
-- the display driver, and the register accesses of the pin multiplexer and the PWM driver of the
-- ESP32-P4. The bits of the flash controller, which the vendor's header decides, are parameters
-- too. A division by zero is the result none.
--
-- Loops over arrays are recursion on the array or on the rounds left. Four loops run on fuel: the
-- polling loop of the DMA worker, where timeout_ms + 1 polls are enough; the range loop of the
-- ESP32-P4 cache, where a round for every 4 KiB and two more are enough; the loop of
-- board_console_printf, where a step for every byte of the format and one more are enough; and the
-- loop of console_write, where a round for every byte and one more are enough. The DMA client's
-- loop over chunks of a buffer runs the rounds that its condition allows. An access past the end
-- of an array of do_load is the result none, and a read past the end of a format or of its
-- arguments is the result undefined. The loops of the flash driver that wait for the controller
-- are recursion on their guards of 100000 and 1000000 polls.
--
-- Not modelled: console output of the other parts, the creation of endpoints and threads, and
-- every other driver and start-up file of the boards.
pub mod Asclin
pub mod Base
pub mod Cache
pub mod Console
pub mod Display
pub mod Dma
pub mod Fdcan
pub mod Gdma
pub mod Gpio
pub mod I2c
pub mod Kernel
pub mod Ledc
pub mod Pdma
pub mod Pinmux
pub mod PsramTune
pub mod Qspi
pub mod Serial
pub mod Tim
pub mod Twai
pub mod Usart
pub mod Wire
